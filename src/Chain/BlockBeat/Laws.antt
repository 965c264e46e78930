-- ===== src/Chain/BlockBeat/Laws.antt =====
-- Which blocks `BlockBeatActor` emits.
use bittensor_nexus_library.Prelude.{
  ℕ, ◌<◌, ◌%◌, ◌≡◌, refl, ap, Bool, true, false, Option, none, some, List, [], ◌∷◌, ◌==◌, keep_if,
  nat_eq, arith, Bool-cases, inl, inr, if◌then◌else◌,
}
use bittensor_nexus_library.Chain.BlockBeat.{
  BlockBeat, Poll, polled, transient_failure, unexpected_failure, is_last, is_due, produce,
}

-- The blocks of the polls up to the first unexpected failure.
abbrev pub polled_blocks : List Poll → List BlockBeat
polled_blocks [] = []
polled_blocks (polled beat ∷ polls) = beat ∷ polled_blocks polls
polled_blocks (transient_failure ∷ polls) = polled_blocks polls
polled_blocks (unexpected_failure e ∷ polls) = []

abbrev pub is_multiple : ℕ → BlockBeat → Bool
is_multiple every_nth beat = beat.block_number % every_nth == 0

-- The list without the blocks that repeat the number of the one before them.
unfoldable pub without_repeats : Option ℕ → List BlockBeat → List BlockBeat
without_repeats last [] = []
without_repeats last (beat ∷ beats) =
    let repeated = without_repeats last beats in
    let kept = beat ∷ without_repeats (some beat.block_number) beats in
    if is_last last beat.block_number then repeated else kept

-- The block emitted last, if any, is a multiple.
abbrev IsMultiple : ℕ → Option ℕ → Type 0
IsMultiple every_nth none = Unit
IsMultiple every_nth (some n) = (n % every_nth == 0) ≡ true

repeated_multiple :
    (every_nth n : ℕ) (last : Option ℕ)
    → IsMultiple every_nth last
    → is_last last n ≡ true
    → (n % every_nth == 0) ≡ true
repeated_multiple every_nth n none h e = ground (arith, e)
repeated_multiple every_nth n (some m) h e = ground (arith, nat_eq.beq_iff n m, h, e)

produce_from :
    (every_nth : ℕ) (last : Option ℕ) (polls : List Poll)
    → 0 < every_nth
    → IsMultiple every_nth last
    → (produce every_nth last polls).0
      ≡ without_repeats last (keep_if (is_multiple every_nth) (polled_blocks polls))
unfolding produce is_due without_repeats keep_if
produce_from every_nth last [] positive h = refl
produce_from every_nth last (transient_failure ∷ polls) positive h =
    produce_from every_nth last polls positive h
produce_from every_nth last (unexpected_failure e ∷ polls) positive h = refl
produce_from every_nth last (polled beat ∷ polls) positive h =
    let nonzero : (every_nth == 0) ≡ false = ground arith in
    elim (Bool-cases (is_last last beat.block_number)) [
      | inl again ↦
          let multiple = repeated_multiple every_nth beat.block_number last h again in
          rw (again, multiple) (rw again (produce_from every_nth last polls positive h))
      | inr fresh ↦ elim (Bool-cases (beat.block_number % every_nth == 0)) [
        | inl multiple ↦
            rw (fresh, nonzero, multiple)
              (rw fresh (
                ap (λ l. beat ∷ l)
                  (produce_from every_nth (some beat.block_number) polls positive multiple)))
        | inr other ↦ rw (fresh, nonzero, other) (produce_from every_nth last polls positive h)
      ]
    ]

-- For a positive interval, the blocks that the polls before a failure report and whose number is a
-- multiple of the interval are emitted in the order of the polls, each once for as long as the polls
-- repeat it; other blocks are not emitted, and transient failures change nothing.
pub produce-without_repeats :
    (every_nth : ℕ) (polls : List Poll)
    → 0 < every_nth
    → (produce every_nth none polls).0
      ≡ without_repeats none (keep_if (is_multiple every_nth) (polled_blocks polls))
produce-without_repeats every_nth polls positive = produce_from every_nth none polls positive tt
