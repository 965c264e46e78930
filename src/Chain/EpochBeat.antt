-- ===== src/Chain/EpochBeat.antt =====
-- `EpochBeatActor._produce` of src/nexus/_internal/actors/chain_beat/epoch_beat.py. An `EpochBeat` has
-- one field, its epoch, which stands for it here.
pub mod Laws
use bittensor_nexus_library.Prelude.{ℕ, Bool, true, false, not, Option, none, some, List, [], ◌∷◌}
use bittensor_nexus_library.Prelude.Int.{ℤ, pos, ◌-ℤ◌}
use bittensor_nexus_library.Exceptions.{Result, ok, raise}
use bittensor_nexus_library.Chain.Epoch.{Epoch, default_tempo, get_epoch_containing_block}
use bittensor_nexus_library.Chain.SetWeightsBeat.{is_epoch}
use bittensor_nexus_library.Chain.BlockBeat.{
  Poll, polled, transient_failure, unexpected_failure, Yielded, yield_if,
}

-- The parameters of an `EpochBeatNode` that the actor reads.
pub record EpochBeatNode : Type 0 where
  pub netuid : ℕ
  pub delay_blocks : ℕ

unfoldable pub epoch_at : EpochBeatNode → ℕ → Result Epoch
unfolding get_epoch_containing_block
epoch_at spec block =
    get_epoch_containing_block (pos block -ℤ pos spec.delay_blocks) spec.netuid default_tempo

-- What is yielded for the epoch of a block, before the rest.
abbrev pub yield_epoch :
    Option Epoch → Result Epoch → (Epoch → Yielded Epoch) → Yielded Epoch → Yielded Epoch
yield_epoch last (raise e) emitted skipped = ([], raise e)
yield_epoch last (ok epoch) emitted skipped =
    yield_if (ok (not (is_epoch last epoch))) epoch (emitted epoch) skipped

-- `_produce` over the polls that come before the stop event.
unfoldable pub produce : EpochBeatNode → Option Epoch → List Poll → Yielded Epoch
unfolding epoch_at
produce spec last [] = ([], ok tt)
produce spec last (transient_failure ∷ polls) = produce spec last polls
produce spec last (unexpected_failure e ∷ polls) = ([], raise e)
produce spec last (polled beat ∷ polls) =
    let skipped = produce spec last polls in
    let emitted : Epoch → Yielded Epoch = λ epoch. produce spec (some epoch) polls in
    yield_epoch last (epoch_at spec beat.block_number) emitted skipped
