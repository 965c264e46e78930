-- ===== src/Communicator/Accounts.antt =====
-- What each step of a thread of src/nexus/_internal/actors/executor_communicator settles: the
-- emissions of a context and its pending requests are counted together.
use bittensor_nexus_library.Prelude.{
  ℕ, ◌+◌, ◌≡◌, refl, sym, subst, Option, none, some, List, [], ◌∷◌, ◌++◌, map, count, ◌==◌, nat_eq,
  if◌then◌else◌, arith, Option-cases, inl, inr,
}
use bittensor_nexus_library.Prelude.Dict
use bittensor_nexus_library.Prelude.Dict.{Dict, get-remove}
use bittensor_nexus_library.Exceptions
use bittensor_nexus_library.Exceptions.{
  NexusException, Exn, Result, ok, raise, nexus, remote_response_timeout, response_validation,
  response_invalid, Validation, valid, validation_error, other_error,
}
use bittensor_nexus_library.ContextStore.{ContextId}
use bittensor_nexus_library.Communicator.{
  RequestId, PendingRequest, Outcome, executor_error, Emission, Shared,
}
use bittensor_nexus_library.Communicator.PendingRequests.{put, pop, pop_expired}
use bittensor_nexus_library.Communicator.Pending.{
  pending_of, one, IsPending, pending_of-put, pending_of-remove, put-IsPending, remove-IsPending,
  pending_of-pop_expired,
}
use bittensor_nexus_library.Communicator.Threads.{
  Enqueueing, enqueued, loop_not_running, timed_out, failed, emit, emit_popped,
  fail_pending_request, enqueue_send_request, dispatch, dispatch_resolved, emit_internal_error,
  failure_of, after_send, timeout_sweep,
}

abbrev pub nobody : ContextId → ℕ
nobody ctx = 0

abbrev pub for_context : ContextId → ContextId → ℕ
for_context c ctx = if c == ctx then 1 else 0

module _ {O : Type 0} where
  unfoldable pub emitted_of : ContextId → List (Emission O) → ℕ
  unfolding count
  emitted_of ctx es = count ctx (map (λ e. e.ctx_id) es)

  emitted_of-append :
      (ctx : ContextId) (xs ys : List (Emission O))
      → emitted_of ctx (xs ++ ys) ≡ emitted_of ctx xs + emitted_of ctx ys
  unfolding emitted_of count
  emitted_of-append ctx [] ys = omega arith
  emitted_of-append ctx (x ∷ xs) ys = omega (arith, emitted_of-append ctx xs ys)

  emitted_of_last :
      (ctx : ContextId) (e : Emission O)
      → emitted_of ctx (e ∷ []) ≡ (if e.ctx_id == ctx then 1 else 0)
  unfolding emitted_of count
  emitted_of_last ctx e = omega arith

module _ (O : Type 0) where
  abbrev timeout : PendingRequest → Emission O
  timeout request = record {
    ctx_id = request.ctx_id;
    outcome = executor_error remote_response_timeout;
  }

  emitted_of-timeouts :
      (ctx : ContextId) (rs : List PendingRequest)
      → emitted_of ctx (map timeout rs) ≡ count ctx (map (λ r. r.ctx_id) rs)
  unfolding emitted_of count
  emitted_of-timeouts ctx [] = refl
  emitted_of-timeouts ctx (r ∷ rs) = omega (arith, emitted_of-timeouts ctx rs)

module _ {O : Type 0} where
  -- What a context has got and what it still waits for.
  abbrev pub accounted : ContextId → Shared O → ℕ
  accounted ctx s = emitted_of ctx s.emitted + pending_of ctx s.pending

  emitted_of-emit :
      (ctx c : ContextId) (o : Outcome O) (s : Shared O)
      → emitted_of ctx (emit c o s).emitted ≡ emitted_of ctx s.emitted + (if c == ctx then 1 else 0)
  emitted_of-emit ctx c o s =
      let e : Emission O = record { ctx_id = c; outcome = o } in
      omega (arith, emitted_of-append ctx s.emitted (e ∷ []), emitted_of_last ctx e)

  -- Popping a request and emitting for it settles the account.
  popped_accounted :
      (ctx : ContextId) (k : RequestId) (o : Outcome O) (s : Shared O)
      → IsPending s.pending
      → accounted ctx
          (emit_popped (Dict.get k s.pending) o (record s { pending = Dict.remove k s.pending }))
        ≡ accounted ctx s
  popped_accounted ctx k o s h = elim (Option-cases (Dict.get k s.pending)) [
    | inl e ↦
        let none_left : pending_of ctx (Dict.remove k s.pending) + 0 ≡ pending_of ctx s.pending =
          subst
            (λ r. pending_of ctx (Dict.remove k s.pending) + one ctx r ≡ pending_of ctx s.pending) e
            (pending_of-remove ctx k s.pending h.0) in
        rw e (omega (arith, none_left))
    | inr (r, e) ↦
        let one_left : pending_of ctx (Dict.remove k s.pending) + one ctx (some r)
            ≡ pending_of ctx s.pending =
          subst
            (λ r. pending_of ctx (Dict.remove k s.pending) + one ctx r ≡ pending_of ctx s.pending) e
            (pending_of-remove ctx k s.pending h.0) in
        rw e (
          omega (
            arith,
            one_left,
            emitted_of-emit ctx r.ctx_id o (record s { pending = Dict.remove k s.pending }),
          ))
  ]

  pub emit_popped_pending :
      (r : Option PendingRequest) (o : Outcome O) (s : Shared O)
      → (emit_popped r o s).pending ≡ s.pending
  emit_popped_pending none o s = refl
  emit_popped_pending (some r) o s = refl

  -- A step keeps the store sound and adds `n ctx` to the account of every context.
  abbrev pub Adds : (ContextId → ℕ) → Shared O → Shared O → Type 0
  Adds n s s' =
      IsPending s'.pending × ((ctx : ContextId) → accounted ctx s' ≡ accounted ctx s + n ctx)

  pub popped-Adds :
      (k : RequestId) (o : Outcome O) (s : Shared O)
      → IsPending s.pending
      → Adds nobody s
          (emit_popped (Dict.get k s.pending) o (record s { pending = Dict.remove k s.pending }))
  popped-Adds k o s h = (
    subst IsPending
        (sym (
          emit_popped_pending (Dict.get k s.pending) o
            (record s { pending = Dict.remove k s.pending })))
        (remove-IsPending k s.pending h),
    λ ctx. omega (arith, popped_accounted ctx k o s h),
  )

  fail-Adds :
      (k : RequestId) (e : NexusException) (s : Shared O)
      → IsPending s.pending
      → Adds nobody s (fail_pending_request k e s)
  unfolding fail_pending_request pop
  fail-Adds k e s h = popped-Adds k (executor_error e) s h

  pub enqueue-Adds :
      (k : RequestId) (q : Enqueueing) (s : Shared O)
      → IsPending s.pending
      → Adds nobody s (enqueue_send_request k q s)
  unfolding enqueue_send_request
  enqueue-Adds k enqueued s h = (h, λ ctx. omega arith)
  enqueue-Adds k loop_not_running s h = fail-Adds k _ s h
  enqueue-Adds k timed_out s h = fail-Adds k _ s h
  enqueue-Adds k failed s h = fail-Adds k _ s h

  pub after_send-Adds :
      (r : Result (Unit {0})) (k : RequestId) (s : Shared O)
      → IsPending s.pending
      → Adds nobody s (after_send r k s)
  after_send-Adds (ok _) k s h = (h, λ ctx. omega arith)
  after_send-Adds (raise e) k s h = fail-Adds k (failure_of e) s h

  pub emit-Adds :
      (c : ContextId) (o : Outcome O) (s : Shared O)
      → IsPending s.pending
      → Adds (for_context c) s (emit c o s)
  emit-Adds c o s h = (h, λ ctx. omega (arith, emitted_of-emit ctx c o s))

  error-Adds :
      (c : ContextId) (e : Exn) (s : Shared O)
      → IsPending s.pending
      → Adds (for_context c) s (emit_internal_error c (raise e, s))
  error-Adds c (nexus x) s h = emit-Adds c _ s h
  error-Adds c Exceptions.invalid_context_id s h = emit-Adds c _ s h
  error-Adds c Exceptions.context_completed s h = emit-Adds c _ s h
  error-Adds c Exceptions.value_error s h = emit-Adds c _ s h
  error-Adds c Exceptions.key_error s h = emit-Adds c _ s h
  error-Adds c Exceptions.type_error s h = emit-Adds c _ s h
  error-Adds c Exceptions.runtime_error s h = emit-Adds c _ s h
  error-Adds c Exceptions.zero_division s h = emit-Adds c _ s h
  error-Adds c Exceptions.index_error s h = emit-Adds c _ s h
  error-Adds c (Exceptions.foreign n) s h = emit-Adds c _ s h

  dispatch-Adds :
      (request : PendingRequest) (s : Shared O)
      → IsPending s.pending
      → Adds
          (for_context request.ctx_id)
          s
          (emit_internal_error request.ctx_id (dispatch request s))
  unfolding dispatch put
  dispatch-Adds request s h = elim (Option-cases (Dict.get request.request_id s.pending)) [
    | inl e ↦ rw e (
      put-IsPending request s.pending h,
      λ ctx. omega (arith, pending_of-put ctx request.request_id request s.pending e),
    )
    | inr (r, e) ↦ rw e (error-Adds request.ctx_id (nexus (Exceptions.internal_framework)) s h)
  ]

  pub resolved-Adds :
      (r : Result (Unit {0})) (request : PendingRequest) (s : Shared O)
      → IsPending s.pending
      → Adds
          (for_context request.ctx_id)
          s
          (emit_internal_error request.ctx_id (dispatch_resolved r request s))
  resolved-Adds (ok _) request s h = dispatch-Adds request s h
  resolved-Adds (raise e) request s h = error-Adds request.ctx_id e s h

  pub sweep-Adds :
      (now : ℕ) (s : Shared O) → IsPending s.pending → Adds nobody s (timeout_sweep now s)
  unfolding timeout_sweep
  sweep-Adds now s h = (
    (pending_of-pop_expired 0 now s.pending h).1,
    λ ctx. omega (
      arith,
      emitted_of-append ctx s.emitted (map (timeout O) (pop_expired now s.pending).0),
      emitted_of-timeouts O ctx (pop_expired now s.pending).0,
      (pending_of-pop_expired ctx now s.pending h).0,
    ),
  )
