-- ===== src/Chain/BlockBeat.antt =====
-- `BlockBeat` and `BlockBeatActor._produce` of src/nexus/_internal/actors/chain_beat/block_beat.py.
-- Waiting between two polls is left out.
pub mod Laws
use bittensor_nexus_library.Prelude.{
  ℕ, ◌%◌, String, Bool, true, false, Option, none, some, List, [], ◌∷◌, ◌==◌, nat_eq, if◌then◌else◌,
}
use bittensor_nexus_library.Exceptions.{Exn, Result, ok, raise, zero_division}

pub record BlockBeat : Type 0 where
  pub block_number : ℕ
  pub block_timestamp : ℕ
  pub block_hash : String

-- What one poll of pylon gives: a block, a `BasePylonException`, or another exception.
pub data Poll : Type 0 where
  polled : BlockBeat → Poll
  transient_failure : Poll
  unexpected_failure : Exn → Poll

abbrev pub is_last : Option ℕ → ℕ → Bool
is_last none n = false
is_last (some last) n = n == last

-- `block_number != last_emitted and block_number % every_nth == 0`
unfoldable pub is_due : ℕ → Option ℕ → ℕ → Result Bool
is_due every_nth last n =
    if is_last last n
    then ok false
    else if every_nth == 0
    then raise zero_division
    else ok (n % every_nth == 0)

-- What a producer yields, and how it ends.
abbrev pub Yielded : Type 0 → Type 0
Yielded B = List B × Result (Unit {0})

abbrev pub yield_if : {B : Type 0} → Result Bool → B → Yielded B → Yielded B → Yielded B
yield_if (ok true) beat (beats, end) skipped = (beat ∷ beats, end)
yield_if (ok false) beat yielded skipped = skipped
yield_if (raise e) beat yielded skipped = ([], raise e)

-- `_produce` over the polls that come before the stop event.
unfoldable pub produce : ℕ → Option ℕ → List Poll → Yielded BlockBeat
unfolding is_due
produce every_nth last [] = ([], ok tt)
produce every_nth last (transient_failure ∷ polls) = produce every_nth last polls
produce every_nth last (unexpected_failure e ∷ polls) = ([], raise e)
produce every_nth last (polled beat ∷ polls) =
    let yielded = produce every_nth (some beat.block_number) polls in
    let skipped = produce every_nth last polls in
    yield_if (is_due every_nth last beat.block_number) beat yielded skipped
