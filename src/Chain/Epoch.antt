-- ===== src/Chain/Epoch.antt =====
-- `Epoch` of utils/types.py and `get_epoch_containing_block` of utils/chain.py.
pub mod Partition
pub mod Laws
use bittensor_nexus_library.Prelude.{
  ℕ, suc, ◌+◌, ◌-◌, ◌≡◌, Bool, ◌&&◌, ◌||◌, leb, nat_beq, if◌then◌else◌,
}
use bittensor_nexus_library.Prelude.Int.{ℤ, pos, ◌+ℤ◌, ◌-ℤ◌, leb_ℤ, ltb_ℤ, beq_ℤ, mod_ℤ}
use bittensor_nexus_library.Exceptions.{Result, ok, raise, value_error}

-- An inclusive range of blocks.
pub record Epoch : Type 0 where
  pub first_block : ℤ
  pub last_block : ℤ

unfoldable pub contains : Epoch → ℤ → Bool
contains e b = leb_ℤ e.first_block b && leb_ℤ b e.last_block

unfoldable pub previous : Epoch → Result Epoch
previous e =
    let span = e.last_block -ℤ e.first_block +ℤ pos 1 in
    let first = e.first_block -ℤ span in
    let last = e.last_block -ℤ span in
    if leb_ℤ span (pos 0)
    then raise value_error
    else if ltb_ℤ first (pos 0) || ltb_ℤ last (pos 0)
    then raise value_error
    else ok (record { first_block = first; last_block = last })

abbrev pub default_tempo : ℕ
default_tempo = 360

-- `tempo` is a chain parameter, an unsigned number; 0 is refused.
unfoldable pub get_epoch_containing_block : ℤ → ℕ → ℕ → Result Epoch
get_epoch_containing_block block netuid tempo =
    let interval = tempo + 1 in
    let next_epoch = block +ℤ pos tempo -ℤ pos (mod_ℤ (block +ℤ pos netuid +ℤ pos 1) interval) in
    if nat_beq tempo 0
    then raise value_error
    else if beq_ℤ next_epoch block
    then ok (record { first_block = next_epoch; last_block = next_epoch +ℤ pos interval -ℤ pos 1 })
    else ok (record { first_block = next_epoch -ℤ pos interval; last_block = next_epoch -ℤ pos 1 })
