-- ===== src/Chain/Tests.antt =====
-- The theorems on epochs and weight beats, at concrete blocks.
use bittensor_nexus_library.Prelude.{◌≡◌, ◌↔◌, refl, arith, true, false, none, List, [], ◌∷◌, All}
use bittensor_nexus_library.Prelude.Int.{ℤ, pos, negsuc, ◌+ℤ◌, ◌-ℤ◌, mod_ℤ, ltb_ℤ}
use bittensor_nexus_library.Exceptions.{ok, raise, value_error}
use bittensor_nexus_library.Chain.Epoch.{Epoch, contains, previous, get_epoch_containing_block}
use bittensor_nexus_library.Chain.Epoch.Partition.{IsEpoch}
use bittensor_nexus_library.Chain.Epoch.Laws.{
  get_epoch-IsEpoch, get_epoch-eq_iff, previous-get_epoch, previous-raises_iff,
}
use bittensor_nexus_library.Chain.SetWeightsBeat.{
  SetWeightsBeatNode, WeightsStatus, submitted, pending, start, run,
}
use bittensor_nexus_library.Chain.SetWeightsBeat.Laws.{run-Spaced, run_submitted, Spaced, IsBeat}

abbrev epoch_1 : Epoch
epoch_1 = record { first_block = pos 357; last_block = pos 717 }

abbrev epoch_2 : Epoch
epoch_2 = record { first_block = pos 718; last_block = pos 1078 }

block_1000 : get_epoch_containing_block (pos 1000) 2 360 ≡ ok epoch_2
unfolding get_epoch_containing_block ◌+ℤ◌ ◌-ℤ◌ mod_ℤ
block_1000 = refl

block_400 : get_epoch_containing_block (pos 400) 2 360 ≡ ok epoch_1
unfolding get_epoch_containing_block ◌+ℤ◌ ◌-ℤ◌ mod_ℤ
block_400 = refl

before_epoch_2 : previous epoch_2 ≡ ok epoch_1
unfolding previous ◌+ℤ◌ ◌-ℤ◌
before_epoch_2 = refl

get_epoch-IsEpoch_example :
    (e : Epoch) × (get_epoch_containing_block (negsuc 4) 2 360 ≡ ok e)
    × (contains e (negsuc 4) ≡ true)
    × IsEpoch 2 360 e
get_epoch-IsEpoch_example = get_epoch-IsEpoch (negsuc 4) 2 360 (omega arith)

get_epoch-eq_iff_example :
    (get_epoch_containing_block (pos 800) 2 360 ≡ ok epoch_2) ↔ (contains epoch_2 (pos 800) ≡ true)
get_epoch-eq_iff_example =
    get_epoch-eq_iff (pos 1000) (pos 800) 2 360 epoch_2 (omega arith) block_1000

previous-get_epoch_example :
    get_epoch_containing_block (epoch_2.first_block -ℤ pos 1) 2 360 ≡ ok epoch_1
previous-get_epoch_example =
    previous-get_epoch (pos 1000) 2 360 epoch_2 epoch_1 (omega arith) block_1000 before_epoch_2

previous-raises_iff_example :
    (previous epoch_1 ≡ raise value_error) ↔ (ltb_ℤ epoch_1.first_block (pos 361) ≡ true)
previous-raises_iff_example = previous-raises_iff (pos 400) 2 360 epoch_1 (omega arith) block_400

abbrev spec : SetWeightsBeatNode
spec = record { netuid = 2; tempo = 360; epoch_start_offset = pos 20; attempts_cooldown = pos 4 }

abbrev blocks : List (ℤ × WeightsStatus)
blocks =
    (pos 730, pending)
    ∷ (pos 800, pending)
    ∷ (pos 802, pending)
    ∷ (pos 804, pending)
    ∷ (pos 1000, submitted)
    ∷ []

run-Spaced_example :
    Spaced (pos 4) none (run spec blocks start) × All (IsBeat spec) (run spec blocks start)
run-Spaced_example = run-Spaced spec blocks

late_block : get_epoch_containing_block (pos 1070) 2 360 ≡ ok epoch_2
unfolding get_epoch_containing_block ◌+ℤ◌ ◌-ℤ◌ mod_ℤ
late_block = refl

started : ltb_ℤ (pos 1000 -ℤ epoch_2.first_block) (pos 20) ≡ false
unfolding ◌-ℤ◌
started = refl

run_submitted_example : run spec ((pos 1000, submitted) ∷ (pos 1070, pending) ∷ []) start ≡ []
unfolding start
run_submitted_example =
    run_submitted spec (pos 1000) epoch_2 ((pos 1070, pending) ∷ []) start block_1000 started refl
      (late_block, tt)
