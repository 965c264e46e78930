-- ===== src/Dsl/Pipes/Merge.antt =====
-- Connecting and merging: what is kept valid, and that a merge joins the declarations of two graphs
-- in either order.
use bittensor_nexus_library.Prelude.{
  ◌≡◌, refl, ap, false, ◌||◌, Option, none, some, List, [], ◌∷◌, contains, ◌==◌, nat_eq,
  if◌then◌else◌, arith, inl, inr, ◌↔◌,
}
use bittensor_nexus_library.Prelude.Dict
use bittensor_nexus_library.Prelude.Dict.{get-put, IsDict}
use bittensor_nexus_library.Exceptions.Exec.{continue}
use bittensor_nexus_library.Dsl.Nodes.{Source, Sink}
use bittensor_nexus_library.Dsl.Pipes.{
  frozenset, union, Targets, make_targets, no_target, or_else, has_tap, Pipes, get_item, connect,
  merge, primaries_conflict, is_none, is_empty, add_to_set,
}
use bittensor_nexus_library.Dsl.Pipes.View.{
  primary_of, is_tap, stored, connect_cases, contains-union, contains-frozenset,
}

abbrev IsWired : Targets → Type 0
IsWired t = (no_target t ≡ false) × (has_tap t.primary t.taps ≡ false)

-- Every source in the graph has a target, and no sink is its primary and its tap at once.
pub record IsValid (pipes : Pipes) : Type 0 where
  pub wired : (s : Source) (t : Targets) → Dict.get s pipes ≡ some t → IsWired t
  pub distinct : IsDict pipes

pub add_to_set_some : (x : Sink) (xs : List Sink) → is_empty (add_to_set x xs) ≡ false
unfolding add_to_set is_empty contains
add_to_set_some x [] = refl
add_to_set_some x (y ∷ ys) = ground arith

no_target-stored :
    (p q : Option Sink) (xs taps : List Sink)
    → no_target (make_targets p taps) ≡ false
    → no_target (record { primary = or_else q p; taps = union xs (frozenset taps) }) ≡ false
unfolding no_target make_targets or_else union is_none is_empty
no_target-stored p q [] taps h = ground arith
no_target-stored p q (x ∷ xs) taps h = ground (arith, add_to_set_some x (union xs (frozenset taps)))

-- `connect`, whether it raises or not, keeps a graph valid.
pub connect-IsValid :
    (s : Source) (p : Option Sink) (taps : List Sink) (pipes : Pipes)
    → IsValid pipes
    → IsValid (connect s p taps pipes).1
connect-IsValid s p taps pipes v = elim (connect_cases s p taps pipes) [
  | inl refused ↦ rw refused v
  | inr (done, some_target, no_overlap, no_conflict) ↦ rw done (record {
    wired = λ j t e. ground (
      arith,
      get-put s j (stored s p taps pipes) pipes,
      v.wired j t,
      no_target-stored p (primary_of pipes s) (get_item s pipes).taps taps some_target,
    );
    distinct = Dict.put-IsDict s (stored s p taps pipes) pipes v.distinct;
  })
]

-- `merge` keeps a graph valid, also when it stops at a conflict half way.
pub merge-IsValid : (other pipes : Pipes) → IsValid pipes → IsValid (merge other pipes).1
unfolding merge
merge-IsValid [] pipes v = v
merge-IsValid ((s, t) ∷ other) pipes v =
    let v' = connect-IsValid s t.primary t.taps pipes v in
    elim (connect_cases s t.primary t.taps pipes) [
      | inl refused ↦ rw (refused, continue) v
      | inr (done, _, _, _) ↦
          rw (done, continue) (merge-IsValid other _ (rw (← ap (λ r. r.1) done) v'))
    ]

-- Two graphs declare no conflicting primaries, and no sink of theirs is primary and tap of one
-- source.
pub record Compatible (a b : Pipes) : Type 0 where
  pub one_primary : (s : Source) → primaries_conflict (primary_of a s) (primary_of b s) ≡ false
  pub no_overlap :
      (s : Source) (k : Sink)
      → or_else (primary_of a s) (primary_of b s) ≡ some k
      → (is_tap a s k || is_tap b s k) ≡ false

-- `c` declares what `a` and `b` declare.
pub record Joins (a b c : Pipes) : Type 0 where
  pub primary : (s : Source) → primary_of c s ≡ or_else (primary_of a s) (primary_of b s)
  pub taps : (s : Source) (k : Sink) → is_tap c s k ≡ (is_tap a s k || is_tap b s k)

pub has_tap_iff :
    (p : Option Sink) (taps : List Sink)
    → (has_tap p taps ≡ false) ↔ ((k : Sink) → p ≡ some k → contains k taps ≡ false)
unfolding has_tap
has_tap_iff none taps = (λ h k. cc, λ h. refl)
has_tap_iff (some p) taps = (λ h k e. ground arith, λ h. h p refl)

pub primary_of-put :
    (s j : Source) (t : Targets) (pipes : Pipes)
    → primary_of (Dict.put s t pipes) j ≡ (if s == j then t.primary else primary_of pipes j)
unfolding get_item
primary_of-put s j t pipes = ground (arith, get-put s j t pipes)

is_tap-put :
    (s j : Source) (k : Sink) (t : Targets) (pipes : Pipes)
    → is_tap (Dict.put s t pipes) j k ≡ (if s == j then contains k t.taps else is_tap pipes j k)
unfolding get_item
is_tap-put s j k t pipes = ground (arith, get-put s j t pipes)

pub is_tap-stored :
    (s j : Source) (k : Sink) (p : Option Sink) (taps : List Sink) (pipes : Pipes)
    → is_tap (Dict.put s (stored s p taps pipes) pipes) j k
      ≡ (if s == j then is_tap pipes j k || contains k taps else is_tap pipes j k)
is_tap-stored s j k p taps pipes = ground (
  arith,
  is_tap-put s j k (stored s p taps pipes) pipes,
  contains-union k (get_item s pipes).taps (frozenset taps),
  contains-frozenset k taps,
)
