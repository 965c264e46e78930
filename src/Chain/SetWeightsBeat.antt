-- ===== src/Chain/SetWeightsBeat.antt =====
-- `SetWeightsBeatActor` of src/nexus/_internal/actors/chain_beat/set_weights_beat.py.
pub mod Laws
use bittensor_nexus_library.Prelude.{
  ℕ, Bool, true, false, not, Option, none, some, List, [], ◌∷◌, ◌&&◌, if◌then◌else◌,
}
use bittensor_nexus_library.Prelude.Int.{ℤ, pos, ◌-ℤ◌, ltb_ℤ, beq_ℤ}
use bittensor_nexus_library.Exceptions.{Exn, Result, ok, raise}
use bittensor_nexus_library.Exceptions.Exec.{
  Exec, pure, throw, lift, modify, gets, continue, ◌>>=◌, ◌>>◌,
}
use bittensor_nexus_library.Chain.Epoch.{Epoch, get_epoch_containing_block}

-- The parameters of a `SetWeightsBeatNode` that the actor reads.
pub record SetWeightsBeatNode : Type 0 where
  pub netuid : ℕ
  pub tempo : ℕ
  pub epoch_start_offset : ℤ
  pub attempts_cooldown : ℤ

pub record SetWeightsBeat : Type 0 where
  pub epoch : Epoch
  pub block_number : ℤ

pub record SetWeightsBeatActor : Type 0 where
  pub last_success_epoch : Option Epoch
  pub last_beat_at_block : Option ℤ

-- What pylon answers: whether the weights were submitted, an error that is worth a new try, or one
-- that is not.
pub data WeightsStatus : Type 0 where
  submitted pending transient_failure : WeightsStatus
  unexpected_failure : Exn → WeightsStatus

unfoldable pub start : SetWeightsBeatActor
start = record { last_success_epoch = none; last_beat_at_block = none }

-- `==` of two epochs, by their fields.
unfoldable pub beq_epoch : Epoch → Epoch → Bool
beq_epoch a b = beq_ℤ a.first_block b.first_block && beq_ℤ a.last_block b.last_block

abbrev pub is_epoch : Option Epoch → Epoch → Bool
is_epoch none e = false
is_epoch (some f) e = beq_epoch f e

-- `last is not None and block - last < cooldown`
abbrev pub is_cooling : ℤ → ℤ → Option ℤ → Bool
is_cooling cooldown block none = false
is_cooling cooldown block (some last) = ltb_ℤ (block -ℤ last) cooldown

unfoldable pub after_status :
    ℤ → Epoch → WeightsStatus → Exec SetWeightsBeatActor (Option SetWeightsBeat)
after_status block epoch submitted = do
  modify (λ s. record s { last_success_epoch = some epoch })
  pure none
after_status block epoch transient_failure = pure none
after_status block epoch (unexpected_failure e) = throw e
after_status block epoch pending = do
  modify (λ s. record s { last_beat_at_block = some block })
  pure (some (record { epoch = epoch; block_number = block }))

-- `_on_block_beat`, with pylon's answer.
unfoldable pub on_block_beat :
    SetWeightsBeatNode → ℤ → WeightsStatus → Exec SetWeightsBeatActor (Option SetWeightsBeat)
unfolding get_epoch_containing_block beq_epoch after_status
on_block_beat spec block status = do
  epoch ← lift (get_epoch_containing_block block spec.netuid spec.tempo)
  success ← gets (λ s. s.last_success_epoch)
  last_beat ← gets (λ s. s.last_beat_at_block)
  if ltb_ℤ (block -ℤ epoch.first_block) spec.epoch_start_offset
      then pure none
      else if is_epoch success epoch
      then pure none
      else if is_cooling spec.attempts_cooldown block last_beat
      then pure none
      else after_status block epoch status

abbrev pub sent : Result (Option SetWeightsBeat) → List SetWeightsBeat → List SetWeightsBeat
sent (ok (some beat)) beats = beat ∷ beats
sent _ beats = beats

-- The beats that a sequence of block beats leads to; a handler that raises sends none.
unfoldable pub run :
    SetWeightsBeatNode → List (ℤ × WeightsStatus) → SetWeightsBeatActor → List SetWeightsBeat
unfolding on_block_beat
run spec [] s = []
run spec ((block, status) ∷ es) s =
    let (r, s') = on_block_beat spec block status s in sent r (run spec es s')
