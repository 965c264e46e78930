-- ===== src/Rest/PendingResponses/Laws.antt =====
-- What requests and the actor may rely on of the pending responses.
use bittensor_nexus_library.Prelude.{
  ◌≡◌, refl, ap, ◌∙◌, false, Option, none, some, List, [], ◌∷◌, ◌==◌, nat_eq, arith, Bool-cases,
  inl, inr, beq_refl,
}
use bittensor_nexus_library.Prelude.Dict
use bittensor_nexus_library.Prelude.Dict.{Dict, get-put, get-remove, remove_missing}
use bittensor_nexus_library.Exceptions.{ok}
use bittensor_nexus_library.ContextStore.{ContextId}
use bittensor_nexus_library.Rest.PendingResponses.{
  FutureId, Status, pending, cancelled, finished, PendingResponses, Step, arrives, responds,
  gives_up, stops, is_done, create_if, create, pop, resolve_future, resolve, cancel_future,
  cancel_futures, cancel_all, give_up, run,
}

module _ {R : Type 0} where
  -- A step that leaves the finished futures as they are, and removes none.
  abbrev Keeps : Dict FutureId (Status R) → Dict FutureId (Status R) → Type 0
  Keeps d d' =
      (f : FutureId) (r : R) → Dict.get f d ≡ some (finished r) → Dict.get f d' ≡ some (finished r)

  put-Keeps :
      (d : Dict FutureId (Status R)) (f : FutureId) (status : Status R)
      → is_done (Dict.get f d) ≡ false
      → Keeps d (Dict.put f status d)
  put-Keeps d f status open_yet g r h = elim (Bool-cases (f == g)) [
    | inl same ↦
        let e : f ≡ g = (nat_eq.beq_iff f g).0 same in
        absurd (ground (arith, open_yet, ap (λ i. is_done (Dict.get i d)) e, ap is_done h))
    | inr other ↦ get-put f g status d ∙ rw other h
  ]

  resolve_future-Keeps :
      (o : Option FutureId) (r : R) (s : PendingResponses R)
      → Keeps s.futures (resolve_future o r s).1.futures
  unfolding resolve_future
  resolve_future-Keeps none r s g x h = h
  resolve_future-Keeps (some f) r s g x h = elim (Bool-cases (is_done (Dict.get f s.futures))) [
    | inl done ↦ rw done h
    | inr open_yet ↦ rw open_yet (put-Keeps s.futures f (finished r) open_yet g x h)
  ]

  cancel_future-Keeps :
      (o : Option FutureId) (s : PendingResponses R) → Keeps s.futures (cancel_future o s).1.futures
  unfolding cancel_future
  cancel_future-Keeps none s g x h = h
  cancel_future-Keeps (some f) s g x h = elim (Bool-cases (is_done (Dict.get f s.futures))) [
    | inl done ↦ rw done h
    | inr open_yet ↦ rw open_yet (put-Keeps s.futures f cancelled open_yet g x h)
  ]

  cancel_future_ok : (f : FutureId) (s : PendingResponses R) → (cancel_future (some f) s).0 ≡ ok tt
  unfolding cancel_future
  cancel_future_ok f s = elim (Bool-cases (is_done (Dict.get f s.futures))) [
    | inl done ↦ rw done refl
    | inr open_yet ↦ rw open_yet refl
  ]

  cancel_futures-Keeps :
      (fs : List FutureId) (s : PendingResponses R)
      → Keeps s.futures (cancel_futures fs s).1.futures
  unfolding cancel_futures
  cancel_futures-Keeps [] s g x h = h
  cancel_futures-Keeps (f ∷ fs) s g x h = rw (cancel_future_ok f s) (
      cancel_futures-Keeps fs (cancel_future (some f) s).1 g x
        (cancel_future-Keeps (some f) s g x h))

  -- Each new request has a future of its own.
  abbrev pub AreNew : List (Step R) → PendingResponses R → Type 0
  AreNew [] s = Unit
  AreNew (arrives ctx f ∷ steps) s = (Dict.get f s.futures ≡ none) × AreNew steps (create ctx f s).1
  AreNew (responds ctx r ∷ steps) s = AreNew steps (resolve ctx r s).1
  AreNew (gives_up ctx ∷ steps) s = AreNew steps (give_up ctx s).1
  AreNew (stops ∷ steps) s = AreNew steps (cancel_all s).1

  create_if-Keeps :
      (o : Option FutureId) (ctx : ContextId) (f : FutureId) (s : PendingResponses R)
      → Dict.get f s.futures ≡ none
      → Keeps s.futures (create_if o ctx f s).1.futures
  unfolding create_if
  create_if-Keeps (some g) ctx f s new = λ i r h. h
  create_if-Keeps none ctx f s new = put-Keeps s.futures f pending (ap is_done new)

  -- A response that a request got is never taken back or replaced, whatever requests, responses,
  -- timeouts and stops come later, when every new request has a new future.
  pub run_finished :
      (steps : List (Step R)) (s : PendingResponses R) (f : FutureId) (r : R)
      → AreNew steps s
      → Dict.get f s.futures ≡ some (finished r)
      → Dict.get f (run steps s).futures ≡ some (finished r)
  unfolding run create resolve give_up cancel_all pop
  run_finished [] s f r new h = h
  run_finished (arrives ctx g ∷ steps) s f r (unused, new) h =
      run_finished steps (create ctx g s).1 f r new
        (create_if-Keeps (Dict.get ctx s.futures_by_ctx_id) ctx g s unused f r h)
  run_finished (responds ctx x ∷ steps) s f r new h =
      run_finished steps (resolve ctx x s).1 f r new
        (resolve_future-Keeps (Dict.get ctx s.futures_by_ctx_id) x (pop ctx s).1 f r h)
  run_finished (gives_up ctx ∷ steps) s f r new h =
      run_finished steps (give_up ctx s).1 f r new
        (cancel_future-Keeps (Dict.get ctx s.futures_by_ctx_id) (pop ctx s).1 f r h)
  run_finished (stops ∷ steps) s f r new h = run_finished steps (cancel_all s).1 f r new (
      cancel_futures-Keeps (Dict.values s.futures_by_ctx_id) (record s { futures_by_ctx_id = [] }) f
        r h)

  pub resolve_future_ids :
      (o : Option FutureId) (r : R) (s : PendingResponses R)
      → (resolve_future o r s).1.futures_by_ctx_id ≡ s.futures_by_ctx_id
  unfolding resolve_future
  resolve_future_ids none r s = refl
  resolve_future_ids (some f) r s = elim (Bool-cases (is_done (Dict.get f s.futures))) [
    | inl done ↦ rw done refl
    | inr open_yet ↦ rw open_yet refl
  ]

  resolve_missing :
      (ctx : ContextId) (r : R) (s : PendingResponses R)
      → Dict.get ctx s.futures_by_ctx_id ≡ none
      → resolve ctx r s ≡ (ok false, s)
  unfolding resolve pop resolve_future
  resolve_missing ctx r s missing =
      rw (missing, remove_missing ctx s.futures_by_ctx_id missing) refl

  -- Whatever the state, after a call of `resolve` a second one for the same context is refused and
  -- changes nothing: a request gets at most one response.
  pub resolve-resolve :
      (ctx : ContextId) (first second : R) (s : PendingResponses R)
      → resolve ctx second (resolve ctx first s).1 ≡ (ok false, (resolve ctx first s).1)
  unfolding resolve pop
  resolve-resolve ctx first second s = resolve_missing ctx second (resolve ctx first s).1 (
      ap (Dict.get ctx) (resolve_future_ids (Dict.get ctx s.futures_by_ctx_id) first (pop ctx s).1)
      ∙ get-remove ctx ctx s.futures_by_ctx_id
      ∙ rw (beq_refl ctx) refl)
