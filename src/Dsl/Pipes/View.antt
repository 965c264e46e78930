-- ===== src/Dsl/Pipes/View.antt =====
-- A graph as its users see it: for each source its primary, and whether a sink is one of its taps.
use bittensor_nexus_library.Prelude.{
  ℕ, ◌≡◌, refl, Bool, false, ◌||◌, Option, List, [], ◌∷◌, contains, ◌==◌, nat_eq, arith, ◌⊎◌, inl,
  inr, Bool-cases,
}
use bittensor_nexus_library.Prelude.Dict
use bittensor_nexus_library.Prelude.Dict.{Dict, get-put, dict_laws}
use bittensor_nexus_library.Exceptions.{ok, raise, nexus, flow_misconfigured}
use bittensor_nexus_library.Dsl.Nodes.{Source, Sink}
use bittensor_nexus_library.Dsl.Pipes.{
  add_to_set, frozenset, union, Targets, make_targets, no_target, or_else, has_tap, Pipes, get_item,
  connect, primaries_conflict,
}

abbrev pub primary_of : Pipes → Source → Option Sink
primary_of pipes s = (get_item s pipes).primary

abbrev pub is_tap : Pipes → Source → Sink → Bool
is_tap pipes s k = contains k (get_item s pipes).taps

contains-add_to_set :
    (k a : ℕ) (xs : List ℕ) → contains k (add_to_set a xs) ≡ (a == k) || contains k xs
unfolding add_to_set contains
contains-add_to_set k a xs = elim (Bool-cases (contains a xs)) [
  | inl old ↦ rw old (ground arith)
  | inr new ↦ rw new
]

pub contains-frozenset : (k : ℕ) (xs : List ℕ) → contains k (frozenset xs) ≡ contains k xs
unfolding frozenset contains
contains-frozenset k [] = refl
contains-frozenset k (x ∷ xs) = rw (contains-add_to_set k x (frozenset xs), contains-frozenset k xs)

pub contains-union :
    (k : ℕ) (xs ys : List ℕ) → contains k (union xs ys) ≡ contains k xs || contains k ys
unfolding union contains
contains-union k [] ys = refl
contains-union k (x ∷ xs) ys =
    rw (contains-add_to_set k x (union xs ys), contains-union k xs ys) (ground arith)

-- What `connect` stores, when it does not raise.
abbrev pub stored : Source → Option Sink → List Sink → Pipes → Targets
stored s p taps pipes = record {
  primary = or_else (primary_of pipes s) p;
  taps = union (get_item s pipes).taps (frozenset taps);
}

pub connect_cases :
    (s : Source) (p : Option Sink) (taps : List Sink) (pipes : Pipes)
    → (connect s p taps pipes ≡ (raise (nexus flow_misconfigured), pipes))
      ⊎ ((connect s p taps pipes ≡ (ok tt, Dict.put s (stored s p taps pipes) pipes))
          × (no_target (make_targets p taps) ≡ false)
          × (has_tap (stored s p taps pipes).primary (stored s p taps pipes).taps ≡ false)
          × (primaries_conflict (primary_of pipes s) p ≡ false))
unfolding connect get_item make_targets or_else union primaries_conflict
connect_cases s p taps pipes = ground arith

pub connect_succeeds :
    (s : Source) (p : Option Sink) (taps : List Sink) (pipes : Pipes)
    → no_target (make_targets p taps) ≡ false
    → has_tap (stored s p taps pipes).primary (stored s p taps pipes).taps ≡ false
    → primaries_conflict (primary_of pipes s) p ≡ false
    → connect s p taps pipes ≡ (ok tt, Dict.put s (stored s p taps pipes) pipes)
unfolding connect get_item make_targets or_else union primaries_conflict
connect_succeeds s p taps pipes some_target alone no_conflict = ground arith
