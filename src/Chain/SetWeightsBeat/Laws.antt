-- ===== src/Chain/SetWeightsBeat/Laws.antt =====
-- When `SetWeightsBeatActor` sends a beat.
use bittensor_nexus_library.Prelude.{
  ◌≡◌, refl, subst, true, false, Option, none, some, List, [], ◌∷◌, arith, All, Bool-cases, ◌⊎◌,
  inl, inr,
}
use bittensor_nexus_library.Prelude.Int.{ℤ, ◌-ℤ◌, ltb_ℤ}
use bittensor_nexus_library.Exceptions.{Exn, Result, ok, raise}
use bittensor_nexus_library.Chain.Epoch.{Epoch, get_epoch_containing_block}
use bittensor_nexus_library.Chain.SetWeightsBeat.{
  SetWeightsBeatNode, SetWeightsBeat, SetWeightsBeatActor, WeightsStatus, submitted, pending,
  transient_failure, unexpected_failure, start, beq_epoch, is_epoch, is_cooling, after_status,
  on_block_beat, sent, run,
}

-- No block of the list is less than `cooldown` blocks after the one before it, or after `last`.
abbrev pub Spaced : ℤ → Option ℤ → List SetWeightsBeat → Type 0
Spaced cooldown last [] = Unit
Spaced cooldown last (beat ∷ beats) =
    (is_cooling cooldown beat.block_number last ≡ false)
    × Spaced cooldown (some beat.block_number) beats

-- What a beat says of its epoch.
abbrev pub IsBeat : SetWeightsBeatNode → SetWeightsBeat → Type 0
IsBeat spec beat =
    (get_epoch_containing_block beat.block_number spec.netuid spec.tempo ≡ ok beat.epoch)
    × (ltb_ℤ (beat.block_number -ℤ beat.epoch.first_block) spec.epoch_start_offset ≡ false)

abbrev Handled :
    SetWeightsBeatNode
    → ℤ
    → Result (Option SetWeightsBeat)
    → SetWeightsBeatActor
    → SetWeightsBeatActor
    → Type 0
Handled spec block (ok (some beat)) s s' =
    (beat.block_number ≡ block)
    × (is_cooling spec.attempts_cooldown block s.last_beat_at_block ≡ false)
    × (s'.last_beat_at_block ≡ some block)
    × (is_epoch s.last_success_epoch beat.epoch ≡ false)
    × IsBeat spec beat
Handled spec block (ok none) s s' = s'.last_beat_at_block ≡ s.last_beat_at_block
Handled spec block (raise e) s s' = s' ≡ s

Result-cases : {A : Type 0} (r : Result A) → ((e : Exn) × (r ≡ raise e)) ⊎ ((a : A) × (r ≡ ok a))
Result-cases (ok a) = inr (a, refl)
Result-cases (raise e) = inl (e, refl)

after_status-Handled :
    (spec : SetWeightsBeatNode) (block : ℤ) (epoch : Epoch) (status : WeightsStatus)
    (s : SetWeightsBeatActor)
    → get_epoch_containing_block block spec.netuid spec.tempo ≡ ok epoch
    → ltb_ℤ (block -ℤ epoch.first_block) spec.epoch_start_offset ≡ false
    → is_epoch s.last_success_epoch epoch ≡ false
    → is_cooling spec.attempts_cooldown block s.last_beat_at_block ≡ false
    → Handled spec block
        (after_status block epoch status s).0
        s
        (after_status block epoch status s).1
unfolding after_status
after_status-Handled spec block epoch submitted s found started open_yet cool = refl
after_status-Handled spec block epoch transient_failure s found started open_yet cool = refl
after_status-Handled spec block epoch (unexpected_failure e) s found started open_yet cool = refl
after_status-Handled spec block epoch pending s found started open_yet cool =
    (refl, cool, refl, open_yet, (found, started))

on_block_beat-Handled :
    (spec : SetWeightsBeatNode) (block : ℤ) (status : WeightsStatus) (s : SetWeightsBeatActor)
    → Handled spec block
        (on_block_beat spec block status s).0
        s
        (on_block_beat spec block status s).1
unfolding on_block_beat
on_block_beat-Handled spec block status s =
    elim (Result-cases (get_epoch_containing_block block spec.netuid spec.tempo)) [
      | inl (e, h) ↦ rw h refl
      | inr (epoch, h) ↦
          elim (Bool-cases (ltb_ℤ (block -ℤ epoch.first_block) spec.epoch_start_offset)) [
            | inl early ↦ rw (h, early) refl
            | inr started ↦ elim (Bool-cases (is_epoch s.last_success_epoch epoch)) [
              | inl done ↦ rw (h, started, done) refl
              | inr missing ↦
                  elim (Bool-cases (is_cooling spec.attempts_cooldown block s.last_beat_at_block)) [
                    | inl cooling ↦ rw (h, started, missing, cooling) refl
                    | inr cool ↦
                        rw (h, started, missing, cool)
                          (after_status-Handled spec block epoch status s h started missing cool)
                  ]
            ]
          ]
    ]

sent-Spaced :
    (spec : SetWeightsBeatNode) (block : ℤ) (r : Result (Option SetWeightsBeat))
    (s s' : SetWeightsBeatActor) (beats : List SetWeightsBeat)
    → Handled spec block r s s'
    → Spaced spec.attempts_cooldown s'.last_beat_at_block beats
    → All (IsBeat spec) beats
    → Spaced spec.attempts_cooldown s.last_beat_at_block (sent r beats)
      × All (IsBeat spec) (sent r beats)
sent-Spaced spec block (ok none) s s' beats h spaced all =
    (subst (λ l. Spaced spec.attempts_cooldown l beats) h spaced, all)
sent-Spaced spec block (raise e) s s' beats h spaced all =
    (subst (λ t. Spaced spec.attempts_cooldown t.last_beat_at_block beats) h spaced, all)
sent-Spaced spec block (ok (some beat)) s s' beats (same, cool, last, missing, is_beat) spaced all =
    (
      (rw same cool, rw same (subst (λ l. Spaced spec.attempts_cooldown l beats) last spaced)),
      (is_beat, all),
    )

run-Spaced' :
    (spec : SetWeightsBeatNode) (es : List (ℤ × WeightsStatus)) (s : SetWeightsBeatActor)
    → Spaced spec.attempts_cooldown s.last_beat_at_block (run spec es s)
      × All (IsBeat spec) (run spec es s)
unfolding run
run-Spaced' spec [] s = (tt, tt)
run-Spaced' spec ((block, status) ∷ es) s =
    let s' = (on_block_beat spec block status s).1 in
    let (spaced, all) = run-Spaced' spec es s' in
    sent-Spaced spec block (on_block_beat spec block status s).0 s s' (run spec es s')
      (on_block_beat-Handled spec block status s) spaced all

-- Whatever blocks arrive and whatever pylon answers, each beat that the actor sends names the epoch
-- of its block and is at least `epoch_start_offset` blocks into it, and no beat is less than
-- `attempts_cooldown` blocks after the one before.
pub run-Spaced :
    (spec : SetWeightsBeatNode) (es : List (ℤ × WeightsStatus))
    → Spaced spec.attempts_cooldown none (run spec es start) × All (IsBeat spec) (run spec es start)
unfolding start
run-Spaced spec es = run-Spaced' spec es start

pub beq_epoch_refl : (e : Epoch) → beq_epoch e e ≡ true
unfolding beq_epoch
beq_epoch_refl e = ground arith

-- The blocks of a sequence that all lie in one epoch.
abbrev pub WithinEpoch : SetWeightsBeatNode → Epoch → List (ℤ × WeightsStatus) → Type 0
WithinEpoch spec epoch = All (λ b. get_epoch_containing_block b.0 spec.netuid spec.tempo ≡ ok epoch)

quiet :
    (spec : SetWeightsBeatNode) (block : ℤ) (status : WeightsStatus) (epoch : Epoch)
    (s : SetWeightsBeatActor)
    → get_epoch_containing_block block spec.netuid spec.tempo ≡ ok epoch
    → is_epoch s.last_success_epoch epoch ≡ true
    → on_block_beat spec block status s ≡ (ok none, s)
unfolding on_block_beat
quiet spec block status epoch s h done =
    elim (Bool-cases (ltb_ℤ (block -ℤ epoch.first_block) spec.epoch_start_offset)) [
      | inl early ↦ rw (h, early) refl
      | inr started ↦ rw (h, started, done) refl
    ]

quiet_run :
    (spec : SetWeightsBeatNode) (epoch : Epoch) (es : List (ℤ × WeightsStatus))
    (s : SetWeightsBeatActor)
    → is_epoch s.last_success_epoch epoch ≡ true
    → WithinEpoch spec epoch es
    → run spec es s ≡ []
unfolding run
quiet_run spec epoch [] s done h = refl
quiet_run spec epoch ((block, status) ∷ es) s done (found, h) =
    rw (quiet spec block status epoch s found done) (quiet_run spec epoch es s done h)

-- Once pylon has said at a block that the weights of its epoch were submitted, and the actor was in
-- a state to ask, no beat is sent for the rest of that epoch.
pub run_submitted :
    (spec : SetWeightsBeatNode) (block : ℤ) (epoch : Epoch) (es : List (ℤ × WeightsStatus))
    (s : SetWeightsBeatActor)
    → get_epoch_containing_block block spec.netuid spec.tempo ≡ ok epoch
    → ltb_ℤ (block -ℤ epoch.first_block) spec.epoch_start_offset ≡ false
    → is_cooling spec.attempts_cooldown block s.last_beat_at_block ≡ false
    → WithinEpoch spec epoch es
    → run spec ((block, submitted) ∷ es) s ≡ []
unfolding run on_block_beat after_status
run_submitted spec block epoch es s found started cool h =
    elim (Bool-cases (is_epoch s.last_success_epoch epoch)) [
      | inl done ↦ quiet_run spec epoch ((block, submitted) ∷ es) s done (found, h)
      | inr missing ↦
          rw (found, started, missing, cool)
            (quiet_run spec epoch es (record s { last_success_epoch = some epoch })
              (beq_epoch_refl epoch) h)
    ]
