-- ===== src/Communicator/Laws.antt =====
-- What holds of the communicator of src/nexus/_internal/actors/executor_communicator in every
-- interleaving of its threads.
use bittensor_nexus_library.Prelude.{
  ℕ, ◌+◌, ◌≡◌, refl, ap, ◌∙◌, Bool, true, false, Option, none, some, List, [], ◌∷◌, count, nat_eq,
  arith,
}
use bittensor_nexus_library.Prelude.Dict
use bittensor_nexus_library.Prelude.Dict.{Dict, get-remove}
use bittensor_nexus_library.Exceptions.{Result, Validation}
use bittensor_nexus_library.ContextStore.{ContextId}
use bittensor_nexus_library.Communicator.{
  RequestId, PendingRequest, ResponseEnvelope, Shared, AxonInfo,
}
use bittensor_nexus_library.Communicator.PendingRequests.{pop}
use bittensor_nexus_library.Communicator.Pending.{pending_of, IsPending, remove_absent}
use bittensor_nexus_library.Communicator.Accounts.{
  emitted_of, Adds, for_context, enqueue-Adds, after_send-Adds, resolved-Adds, sweep-Adds,
  emit-Adds,
}
use bittensor_nexus_library.Communicator.Callbacks.{
  Balances, lost_by, callback-Balances, callback_pending,
}
use bittensor_nexus_library.Communicator.Threads.{
  Enqueueing, Reply, resolve_neuron_target_url, handle_input, enqueue_send_request, send_request,
  sender_worker, timeout_sweep, process_popped, process_callback,
}

-- One step of one thread.
pub data Event (J : Type 0) : Type 0 where
  input : Bool → AxonInfo → PendingRequest → Event J
  handed_over : RequestId → Enqueueing → Event J
  sent : RequestId → Reply → Event J
  callback : Option (ResponseEnvelope J) → Event J
  sweep : ℕ → Event J

module _ {O : Type 0} where
  unfoldable pub empty : Shared O
  empty = record { pending = []; emitted = [] }

module _ {J O : Type 0} (url_of : AxonInfo → Result (Unit {0})) (validate : J → Validation O) where
  unfoldable pub step : Event J → Shared O → Shared O
  unfolding handle_input enqueue_send_request sender_worker process_callback timeout_sweep
  step (input has_sender axon request) s = handle_input url_of has_sender axon request s
  step (handed_over request_id enqueueing) s = enqueue_send_request request_id enqueueing s
  step (sent request_id reply) s = sender_worker request_id reply s
  step (callback body) s = (process_callback validate body s).1
  step (sweep now) s = timeout_sweep now s

  unfoldable pub run : List (Event J) → Shared O → Shared O
  unfolding step
  run [] s = s
  run (e ∷ es) s = run es (step e s)

  -- How many inputs of a context the communicator was given.
  abbrev pub inputs_of : ContextId → List (Event J) → ℕ
  inputs_of ctx [] = 0
  inputs_of ctx (input has_sender axon request ∷ es) =
      for_context request.ctx_id ctx + inputs_of ctx es
  inputs_of ctx (_ ∷ es) = inputs_of ctx es

  input-Adds :
      (has_sender : Bool) (axon : AxonInfo) (request : PendingRequest) (s : Shared O)
      → IsPending s.pending
      → Adds (for_context request.ctx_id) s (handle_input url_of has_sender axon request s)
  unfolding handle_input
  input-Adds true axon request s h =
      resolved-Adds (resolve_neuron_target_url url_of axon) request s h
  input-Adds false axon request s h = emit-Adds request.ctx_id _ s h

  -- How many requests of a context lose their answer: those pending ones whose callback has an output
  -- on which validation raises something other than a `ValidationError`.
  abbrev pub lost : ContextId → List (Event J) → Shared O → ℕ
  lost ctx [] s = 0
  lost ctx (callback body ∷ es) s =
      lost_by validate ctx body s + lost ctx es (step (callback body) s)
  lost ctx (e ∷ es) s = lost ctx es (step e s)

  run-Balances :
      (es : List (Event J)) (s : Shared O)
      → IsPending s.pending
      → Balances (λ ctx. inputs_of ctx es) (λ ctx. lost ctx es s) s (run es s)
  unfolding run step sender_worker
  run-Balances [] s h = (h, λ ctx. omega arith)
  run-Balances (input has_sender axon request ∷ es) s h =
      let (kept, adds) = input-Adds has_sender axon request s h in
      let (kept', adds') = run-Balances es (handle_input url_of has_sender axon request s) kept in
      (kept', λ ctx. omega (arith, adds ctx, adds' ctx))
  run-Balances (handed_over k q ∷ es) s h =
      let (kept, adds) = enqueue-Adds k q s h in
      let (kept', adds') = run-Balances es (enqueue_send_request k q s) kept in
      (kept', λ ctx. omega (arith, adds ctx, adds' ctx))
  run-Balances (sent k reply ∷ es) s h =
      let (kept, adds) = after_send-Adds (send_request reply) k s h in
      let (kept', adds') = run-Balances es (sender_worker k reply s) kept in
      (kept', λ ctx. omega (arith, adds ctx, adds' ctx))
  run-Balances (callback body ∷ es) s h =
      let (kept, adds) = callback-Balances validate body s h in
      let (kept', adds') = run-Balances es (process_callback validate body s).1 kept in
      (kept', λ ctx. omega (arith, adds ctx, adds' ctx))
  run-Balances (sweep now ∷ es) s h =
      let (kept, adds) = sweep-Adds now s h in
      let (kept', adds') = run-Balances es (timeout_sweep now s) kept in
      (kept', λ ctx. omega (arith, adds ctx, adds' ctx))

  -- From the empty store, whatever the order of the threads' steps: the emissions of a context, its
  -- requests that are still pending, and its requests that were pending when a callback came for them
  -- with an output on which validation raises something other than a `ValidationError`, are together
  -- as many as its inputs. No input is answered twice, and none is lost in another way.
  pub accounted-run :
      (ctx : ContextId) (es : List (Event J))
      → emitted_of ctx (run es empty).emitted
          + pending_of ctx (run es empty).pending
          + lost ctx es empty
        ≡ inputs_of ctx es
  unfolding empty emitted_of count
  accounted-run ctx es = omega (arith, (run-Balances es empty (tt, tt)).1 ctx)

module _ {J O : Type 0} (validate : J → Validation O) where
  late :
      (envelope : ResponseEnvelope J) (s : Shared O)
      → Dict.get envelope.request_id s.pending ≡ none
      → process_callback validate (some envelope) s ≡ (404, s)
  unfolding process_callback pop process_popped
  late envelope s gone = rw (gone, remove_absent envelope.request_id s.pending gone) refl

  -- A second callback for a request is answered with 404 and changes nothing, whatever the first
  -- one brought, also when validation of the first one raised.
  pub process_callback-process_callback :
      (first second : ResponseEnvelope J) (s : Shared O)
      → first.request_id ≡ second.request_id
      → process_callback validate (some second) (process_callback validate (some first) s).1
        ≡ (404, (process_callback validate (some first) s).1)
  process_callback-process_callback first second s same =
      let s' = (process_callback validate (some first) s).1 in
      let gone : Dict.get second.request_id s'.pending ≡ none =
        ap (Dict.get second.request_id) (callback_pending validate first s)
        ∙ ground (arith, same, get-remove first.request_id second.request_id s.pending) in
      late second s' gone
