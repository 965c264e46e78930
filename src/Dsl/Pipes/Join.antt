-- ===== src/Dsl/Pipes/Join.antt =====
-- When a merge succeeds, and that its result does not depend on which graph is merged into which.
use bittensor_nexus_library.Prelude.{
  ◌≡◌, refl, ap, sym, ◌∙◌, false, ◌&&◌, Option, none, some, List, [], ◌∷◌, nat_eq, arith, inl, inr,
  ◌↔◌,
}
use bittensor_nexus_library.Prelude.Dict
use bittensor_nexus_library.Prelude.Dict.{get-put, IsDict}
use bittensor_nexus_library.Exceptions.{ok, raise, nexus, flow_misconfigured}
use bittensor_nexus_library.Exceptions.Exec.{continue}
use bittensor_nexus_library.Dsl.Nodes.{Source, Sink}
use bittensor_nexus_library.Dsl.Pipes.{
  Targets, make_targets, no_target, or_else, Pipes, connect, merge, primaries_conflict, frozenset,
  is_none, is_empty,
}
use bittensor_nexus_library.Dsl.Pipes.View.{primary_of, is_tap, connect_cases, connect_succeeds}
use bittensor_nexus_library.Dsl.Pipes.Merge.{
  IsValid, connect-IsValid, add_to_set_some, Compatible, Joins,
}
use bittensor_nexus_library.Dsl.Pipes.Absorb.{
  connected, Joins-empty, Compatible-empty, Joins-cons, Compatible-cons, Compatible-uncons,
}

merge_ok :
    (s : Source) (t : Targets) (other pipes next : Pipes)
    → connect s t.primary t.taps pipes ≡ (ok tt, next)
    → merge ((s, t) ∷ other) pipes ≡ merge other next
unfolding merge
merge_ok s t other pipes next e = rw (e, continue)

merge_raise :
    (s : Source) (t : Targets) (other pipes : Pipes)
    → connect s t.primary t.taps pipes ≡ (raise (nexus flow_misconfigured), pipes)
    → merge ((s, t) ∷ other) pipes ≡ (raise (nexus flow_misconfigured), pipes)
unfolding merge
merge_raise s t other pipes e = rw (e, continue)

-- A merge that does not raise has joined two compatible graphs.
merge_sound :
    (other pipes : Pipes)
    → IsValid pipes
    → IsDict other
    → (merge other pipes).0 ≡ ok tt
    → Compatible pipes other × Joins pipes other (merge other pipes).1
unfolding merge
merge_sound [] pipes v d h = (Compatible-empty pipes v, Joins-empty pipes)
merge_sound ((s, t) ∷ other) pipes v (absent, d) h =
    let v' = connect-IsValid s t.primary t.taps pipes v in
    elim (connect_cases s t.primary t.taps pipes) [
      | inl refused ↦ cc (merge_raise s t other pipes refused, h)
      | inr (done, _, alone, no_conflict) ↦
          let step = merge_ok s t other pipes _ done in
          let (c, j) =
            merge_sound other (connected s t other pipes absent) (rw (← ap (λ r. r.1) done) v') d
              (ap (λ r. r.0) (sym step) ∙ h) in
          (
            Compatible-cons s t other pipes absent no_conflict alone c,
            rw step (Joins-cons s t other pipes absent _ j),
          )
    ]

frozenset_some : (x : Sink) (xs : List Sink) → is_empty (frozenset (x ∷ xs)) ≡ false
unfolding frozenset
frozenset_some x xs = add_to_set_some x (frozenset xs)

make_targets_some :
    (t : Targets) → no_target t ≡ false → no_target (make_targets t.primary t.taps) ≡ false
unfolding no_target make_targets
make_targets_some t h = go t.primary t.taps h
  where
    go :
        (p : Option Sink) (taps : List Sink)
        → (is_none p && is_empty taps) ≡ false
        → (is_none p && is_empty (frozenset taps)) ≡ false
    go p [] e = ground (arith, e)
    go p (x ∷ xs) e = ground (arith, frozenset_some x xs)

IsValid-tail : (s : Source) (t : Targets) (other : Pipes) → IsValid ((s, t) ∷ other) → IsValid other
unfolding Dict.get
IsValid-tail s t other w = record {
  wired = λ j u e. ground (arith, w.wired j u, w.distinct.0);
  distinct = w.distinct.1;
}

IsValid-head :
    (s : Source) (t : Targets) (other : Pipes) → IsValid ((s, t) ∷ other) → no_target t ≡ false
unfolding Dict.get
IsValid-head s t other w = ground (arith, w.wired s t)

-- Two compatible graphs merge without an error.
merge_complete :
    (other pipes : Pipes)
    → IsValid pipes
    → IsValid other
    → Compatible pipes other
    → (merge other pipes).0 ≡ ok tt
unfolding merge
merge_complete [] pipes v w c = refl
merge_complete ((s, t) ∷ other) pipes v w c =
    let (no_conflict, alone, c') = Compatible-uncons s t other pipes w.distinct.0 c in
    let v' = connect-IsValid s t.primary t.taps pipes v in
    let some_target = make_targets_some t (IsValid-head s t other w) in
    let done = connect_succeeds s t.primary t.taps pipes some_target alone no_conflict in
    rw (merge_ok s t other pipes _ done) (
      merge_complete other (connected s t other pipes w.distinct.0) (rw (← ap (λ r. r.1) done) v')
        (IsValid-tail s t other w) c')

-- Merging one valid graph into another succeeds exactly when they are compatible; and where it
-- succeeds, the result declares for each source the primary and the taps that either declares.
pub merge_iff :
    (other pipes : Pipes)
    → IsValid pipes
    → IsValid other
    → (((merge other pipes).0 ≡ ok tt) ↔ Compatible pipes other)
      × ((merge other pipes).0 ≡ ok tt → Joins pipes other (merge other pipes).1)
merge_iff other pipes v w = (
  (λ h. (merge_sound other pipes v w.distinct h).0, merge_complete other pipes v w),
  λ h. (merge_sound other pipes v w.distinct h).1,
)

or_else_comm : (p q : Option Sink) → primaries_conflict p q ≡ false → or_else p q ≡ or_else q p
unfolding or_else primaries_conflict
or_else_comm none none h = refl
or_else_comm none (some q) h = refl
or_else_comm (some p) none h = refl
or_else_comm (some p) (some q) h = ground arith

Compatible-symm : (a b : Pipes) → Compatible a b → Compatible b a
unfolding primaries_conflict or_else
Compatible-symm a b c = record {
  one_primary = λ s. ground (arith, c.one_primary s);
  no_overlap = λ s k e. ground (
    arith,
    e,
    c.no_overlap s k,
    or_else_comm (primary_of a s) (primary_of b s) (c.one_primary s),
  );
}

-- Where one valid graph merges into another without an error, so does the other way round, and
-- both results declare the same primary and the same taps for every source.
pub merge_comm :
    (a b : Pipes)
    → IsValid a
    → IsValid b
    → (merge b a).0 ≡ ok tt
    → ((merge a b).0 ≡ ok tt)
      × ((s : Source) → primary_of (merge a b).1 s ≡ primary_of (merge b a).1 s)
      × ((s : Source) (k : Sink) → is_tap (merge a b).1 s k ≡ is_tap (merge b a).1 s k)
merge_comm a b v w h =
    let (c, j) = merge_sound b a v w.distinct h in
    let back = merge_complete a b w v (Compatible-symm a b c) in
    let (c', j') = merge_sound a b w v.distinct back in
    (
      back,
      λ s. j'.primary s ∙ or_else_comm _ _ (c'.one_primary s) ∙ sym (j.primary s),
      λ s k. ground (arith, j'.taps s k, j.taps s k),
    )
