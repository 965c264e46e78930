-- ===== src/Chain/EpochBeat/Laws.antt =====
-- Which epochs `EpochBeatActor` emits.
use bittensor_nexus_library.Prelude.{
  ℕ, ◌≤◌, ◌≡◌, refl, sym, ap, ◌∙◌, subst, Bool, true, false, ◌||◌, Option, none, some, List, [],
  ◌∷◌, ◌++◌, All, arith, Bool-cases, inl, inr,
}
use bittensor_nexus_library.Prelude.Int.{ℤ, pos, ◌-ℤ◌, ltb_ℤ, int_laws}
use bittensor_nexus_library.Exceptions.{ok}
use bittensor_nexus_library.Chain.Epoch.{Epoch, contains, default_tempo}
use bittensor_nexus_library.Chain.Epoch.Laws.{get_epoch-IsEpoch, get_epoch_later}
use bittensor_nexus_library.Chain.SetWeightsBeat.{is_epoch, beq_epoch}
use bittensor_nexus_library.Chain.SetWeightsBeat.Laws.{beq_epoch_refl}
use bittensor_nexus_library.Chain.BlockBeat.{
  BlockBeat, Poll, polled, transient_failure, unexpected_failure,
}
use bittensor_nexus_library.Chain.BlockBeat.Laws.{polled_blocks}
use bittensor_nexus_library.Chain.EpochBeat.{EpochBeatNode, epoch_at, produce}

-- Each epoch of the list starts after the end of the one before it, or of `last`.
abbrev pub After : Option Epoch → Epoch → Type 0
After none e = Unit
After (some d) e = ltb_ℤ d.last_block e.first_block ≡ true

abbrev pub Separated : Option Epoch → List Epoch → Type 0
Separated last [] = Unit
Separated last (e ∷ es) = After last e × Separated (some e) es

-- The blocks of the polls do not go down, from `b` on.
abbrev pub Ascending : ℕ → List Poll → Type 0
Ascending b [] = Unit
Ascending b (polled beat ∷ polls) = (b ≤ beat.block_number) × Ascending beat.block_number polls
Ascending b (transient_failure ∷ polls) = Ascending b polls
Ascending b (unexpected_failure e ∷ polls) = Unit

unfoldable pub covers : List Epoch → ℤ → Bool
unfolding contains
covers [] block = false
covers (e ∷ es) block = contains e block || covers es block

-- The block of a beat, less the delay.
abbrev pub delayed : EpochBeatNode → BlockBeat → ℤ
delayed spec beat = pos beat.block_number -ℤ pos spec.delay_blocks

abbrev to_list : Option Epoch → List Epoch
to_list none = []
to_list (some e) = e ∷ []

-- The epoch emitted last is that of a block that is not after `b`.
abbrev IsOf : EpochBeatNode → Option Epoch → ℕ → Type 0
IsOf spec none b = Unit
IsOf spec (some e) b = (a : ℕ) × (epoch_at spec a ≡ ok e) × (a ≤ b)

epoch_at_total :
    (spec : EpochBeatNode) (b : ℕ)
    → (e : Epoch) × (epoch_at spec b ≡ ok e) × (contains e (pos b -ℤ pos spec.delay_blocks) ≡ true)
unfolding epoch_at
epoch_at_total spec b =
    let (e, computed, inside, i) =
      get_epoch-IsEpoch (pos b -ℤ pos spec.delay_blocks) spec.netuid default_tempo (omega arith) in
    (e, computed, inside)

After-epoch_at :
    (spec : EpochBeatNode) (last : Option Epoch) (a b : ℕ) (e : Epoch)
    → IsOf spec last a
    → a ≤ b
    → epoch_at spec b ≡ ok e
    → is_epoch last e ≡ false
    → After last e
unfolding epoch_at beq_epoch
After-epoch_at spec none a b e h order at new = tt
After-epoch_at spec (some d) a b e (c, was, before) order at new =
    elim (get_epoch_later (pos c -ℤ pos spec.delay_blocks) (pos b -ℤ pos spec.delay_blocks)
      spec.netuid default_tempo d e (omega arith) (omega int_laws) was at) [
        | inl same ↦
            let repeated : is_epoch (some d) e ≡ true =
              ap (λ f. is_epoch (some d) f) (sym same) ∙ beq_epoch_refl d in
            absurd (ground (arith, repeated, new))
        | inr later ↦ later
      ]

IsOf-mono :
    (spec : EpochBeatNode) (last : Option Epoch) (a b : ℕ)
    → IsOf spec last a
    → a ≤ b
    → IsOf spec last b
IsOf-mono spec none a b h order = tt
IsOf-mono spec (some e) a b (c, was, before) order = (c, was, omega arith)

covers_last :
    (last : Option Epoch) (e : Epoch) (es : List Epoch) (block : ℤ)
    → is_epoch last e ≡ true
    → contains e block ≡ true
    → covers (to_list last ++ es) block ≡ true
unfolding covers beq_epoch contains
covers_last none e es block same inside = ground (arith, same)
covers_last (some d) e es block same inside = ground (arith, same, inside)

covers_more :
    (last : Option Epoch) (es : List Epoch) (block : ℤ)
    → covers es block ≡ true
    → covers (to_list last ++ es) block ≡ true
unfolding covers
covers_more none es block h = h
covers_more (some d) es block h = ground (arith, h)

All-covers_more :
    (spec : EpochBeatNode) (last : Option Epoch) (es : List Epoch) (beats : List BlockBeat)
    → All (λ beat. covers es (delayed spec beat) ≡ true) beats
    → All (λ beat. covers (to_list last ++ es) (delayed spec beat) ≡ true) beats
All-covers_more spec last es [] h = tt
All-covers_more spec last es (beat ∷ beats) (first, h) =
    (covers_more last es (delayed spec beat) first, All-covers_more spec last es beats h)

abbrev Emitted : EpochBeatNode → Option Epoch → List Poll → List Epoch → Type 0
Emitted spec last polls es =
    Separated last es
    × All (λ beat. covers (to_list last ++ es) (delayed spec beat) ≡ true) (polled_blocks polls)

produce_same :
    (spec : EpochBeatNode) (last : Option Epoch) (beat : BlockBeat) (polls : List Poll) (e : Epoch)
    → epoch_at spec beat.block_number ≡ ok e
    → is_epoch last e ≡ true
    → (produce spec last (polled beat ∷ polls)).0 ≡ (produce spec last polls).0
unfolding produce
produce_same spec last beat polls e at same = rw (at, same) refl

produce_new :
    (spec : EpochBeatNode) (last : Option Epoch) (beat : BlockBeat) (polls : List Poll) (e : Epoch)
    → epoch_at spec beat.block_number ≡ ok e
    → is_epoch last e ≡ false
    → (produce spec last (polled beat ∷ polls)).0 ≡ e ∷ (produce spec (some e) polls).0
unfolding produce
produce_new spec last beat polls e at new = rw (at, new) refl

covers_first :
    (e : Epoch) (es : List Epoch) (block : ℤ)
    → contains e block ≡ true
    → covers (e ∷ es) block ≡ true
unfolding covers
covers_first e es block inside = rw inside refl

produce_from :
    (spec : EpochBeatNode) (last : Option Epoch) (b : ℕ) (polls : List Poll)
    → IsOf spec last b
    → Ascending b polls
    → Emitted spec last polls (produce spec last polls).0
unfolding produce
produce_from spec last b [] h order = (tt, tt)
produce_from spec last b (transient_failure ∷ polls) h order =
    produce_from spec last b polls h order
produce_from spec last b (unexpected_failure e ∷ polls) h order = (tt, tt)
produce_from spec last b (polled beat ∷ polls) h (later, order) =
    let (e, at, inside) = epoch_at_total spec beat.block_number in
    elim (Bool-cases (is_epoch last e)) [
      | inl same ↦
          let (separated, covered) =
            produce_from spec last beat.block_number polls
              (IsOf-mono spec last b beat.block_number h later) order in
          subst (Emitted spec last (polled beat ∷ polls))
            (sym (produce_same spec last beat polls e at same))
            (separated, (covers_last last e _ (delayed spec beat) same inside, covered))
      | inr new ↦
          let (separated, covered) =
            produce_from spec (some e) beat.block_number polls (beat.block_number, at, omega arith)
              order in
          subst (Emitted spec last (polled beat ∷ polls))
            (sym (produce_new spec last beat polls e at new))
            (
              (After-epoch_at spec last b beat.block_number e h later at new, separated),
              (
                covers_more last _ (delayed spec beat)
                    (covers_first e _ (delayed spec beat) inside),
                All-covers_more spec last _ (polled_blocks polls) covered,
              ),
            )
    ]

-- When the polled block numbers do not go down, every emitted epoch starts after the end of the one
-- emitted before it, so that none is emitted twice; and every block that is polled before a failure
-- lies, less the delay, in an emitted epoch.
pub produce-Separated :
    (spec : EpochBeatNode) (polls : List Poll)
    → Ascending 0 polls
    → Separated none (produce spec none polls).0
      × All
          (λ beat. covers (produce spec none polls).0 (delayed spec beat) ≡ true)
          (polled_blocks polls)
produce-Separated spec polls order = produce_from spec none 0 polls tt order
