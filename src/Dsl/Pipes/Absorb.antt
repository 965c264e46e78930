-- ===== src/Dsl/Pipes/Absorb.antt =====
-- One source of the graph that is merged in: what it asks of the other graph, and what it adds.
use bittensor_nexus_library.Prelude.{
  ◌≡◌, false, ◌||◌, none, some, [], ◌∷◌, contains, ◌==◌, nat_eq, if◌then◌else◌, arith, inl, inr,
  Option-cases, ◌↔◌,
}
use bittensor_nexus_library.Prelude.Dict
use bittensor_nexus_library.Prelude.Dict.{get-put, IsDict}
use bittensor_nexus_library.Dsl.Nodes.{Source, Sink}
use bittensor_nexus_library.Dsl.Pipes.{
  Targets, or_else, has_tap, Pipes, get_item, primaries_conflict, frozenset,
}
use bittensor_nexus_library.Dsl.Pipes.View.{
  primary_of, is_tap, stored, contains-union, contains-frozenset,
}
use bittensor_nexus_library.Dsl.Pipes.Merge.{
  IsValid, Compatible, Joins, has_tap_iff, primary_of-put, is_tap-stored,
}

pub primary_of-cons :
    (s j : Source) (t : Targets) (b : Pipes)
    → primary_of ((s, t) ∷ b) j ≡ (if s == j then t.primary else primary_of b j)
unfolding get_item Dict.get
primary_of-cons s j t b = ground arith

pub is_tap-cons :
    (s j : Source) (k : Sink) (t : Targets) (b : Pipes)
    → is_tap ((s, t) ∷ b) j k ≡ (if s == j then contains k t.taps else is_tap b j k)
unfolding get_item Dict.get
is_tap-cons s j k t b = ground arith

pub primary_of-absent : (s : Source) (b : Pipes) → Dict.get s b ≡ none → primary_of b s ≡ none
unfolding get_item
primary_of-absent s b h = ground arith

pub is_tap-absent : (s : Source) (k : Sink) (b : Pipes) → Dict.get s b ≡ none → is_tap b s k ≡ false
unfolding get_item contains
is_tap-absent s k b h = ground arith

-- No tap of the targets that `connect` stores is their primary.
abbrev pub StoresAlone : Source → Targets → Pipes → Type 0
StoresAlone s t a =
    has_tap (stored s t.primary t.taps a).primary (stored s t.primary t.taps a).taps ≡ false

pub StoresAlone-iff :
    (s : Source) (t : Targets) (a : Pipes)
    → StoresAlone s t a ↔ (
        (k : Sink)
        → or_else (primary_of a s) t.primary ≡ some k
        → (is_tap a s k || contains k t.taps) ≡ false)
StoresAlone-iff s t a = (
  λ h k e. ground (
    arith,
    (has_tap_iff _ _).0 h k,
    contains-union k (get_item s a).taps (frozenset t.taps),
    contains-frozenset k t.taps,
  ),
  λ h. (has_tap_iff _ _).1 λ k e. ground (
    arith,
    h k,
    contains-union k (get_item s a).taps (frozenset t.taps),
    contains-frozenset k t.taps,
  ),
)

module _ (s : Source) (t : Targets) (b a : Pipes) (absent : Dict.get s b ≡ none) where
  abbrev pub connected : Pipes
  connected = Dict.put s (stored s t.primary t.taps a) a

  pub Joins-cons : (q : Pipes) → Joins connected b q → Joins a ((s, t) ∷ b) q
  unfolding or_else
  Joins-cons q j = record {
    primary = λ x. ground (
      arith,
      j.primary x,
      primary_of-put s x (stored s t.primary t.taps a) a,
      primary_of-cons s x t b,
      primary_of-absent s b absent,
    );
    taps = λ x k. ground (
      arith,
      j.taps x k,
      is_tap-stored s x k t.primary t.taps a,
      is_tap-cons s x k t b,
      is_tap-absent s k b absent,
    );
  }

  pub Compatible-cons :
      primaries_conflict (primary_of a s) t.primary ≡ false
      → StoresAlone s t a
      → Compatible connected b
      → Compatible a ((s, t) ∷ b)
  unfolding or_else primaries_conflict
  Compatible-cons no_conflict alone c = record {
    one_primary = λ x. ground (
      arith,
      c.one_primary x,
      primary_of-put s x (stored s t.primary t.taps a) a,
      primary_of-cons s x t b,
    );
    no_overlap = λ x k e. ground (
      arith,
      e,
      c.no_overlap x k,
      (StoresAlone-iff s t a).0 alone k,
      primary_of-put s x (stored s t.primary t.taps a) a,
      primary_of-cons s x t b,
      is_tap-stored s x k t.primary t.taps a,
      is_tap-cons s x k t b,
    );
  }

  pub Compatible-uncons :
      Compatible a ((s, t) ∷ b)
      → (primaries_conflict (primary_of a s) t.primary ≡ false)
        × StoresAlone s t a
        × Compatible connected b
  unfolding or_else primaries_conflict
  Compatible-uncons c = (
    ground (arith, c.one_primary s, primary_of-cons s s t b),
    (StoresAlone-iff s t a).1 (λ k e.
        ground (arith, e, c.no_overlap s k, primary_of-cons s s t b, is_tap-cons s s k t b)),
    record {
      one_primary = λ x. ground (
        arith,
        c.one_primary x,
        primary_of-put s x (stored s t.primary t.taps a) a,
        primary_of-cons s x t b,
        primary_of-absent s b absent,
      );
      no_overlap = λ x k e. ground (
        arith,
        e,
        c.no_overlap x k,
        primary_of-put s x (stored s t.primary t.taps a) a,
        primary_of-cons s x t b,
        primary_of-absent s b absent,
        is_tap-stored s x k t.primary t.taps a,
        is_tap-cons s x k t b,
        is_tap-absent s k b absent,
      );
    },
  )

pub Compatible-empty : (a : Pipes) → IsValid a → Compatible a []
unfolding or_else primaries_conflict get_item Dict.get contains
Compatible-empty a v = record {
  one_primary = λ s. ground arith;
  no_overlap = λ s k e. elim (Option-cases (Dict.get s a)) [
    | inl absent ↦ ground arith
    | inr (t, present) ↦ ground (arith, (has_tap_iff t.primary t.taps).0 (v.wired s t present).1 k)
  ];
}

pub Joins-empty : (a : Pipes) → Joins a [] a
unfolding or_else get_item Dict.get contains
Joins-empty a = record { primary = λ s. ground arith; taps = λ s k. ground arith }
