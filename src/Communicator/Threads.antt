-- ===== src/Communicator/Threads.antt =====
-- The threads that share the pending requests, of async_http_neuron_communicator.py,
-- sender_loop_runtime.py, callback_http_server_runtime.py and timeout_sweep_runtime.py in
-- src/nexus/_internal/actors/executor_communicator.
use bittensor_nexus_library.Prelude.{
  ℕ, String, Bool, true, false, not, Option, none, some, [], ◌∷◌, ◌++◌, map, ltb, ◌||◌, nat_eq,
  if◌then◌else◌,
}
use bittensor_nexus_library.Prelude.Int.{pos, leb_ℤ}
use bittensor_nexus_library.Exceptions.{
  NexusException, Exn, Result, ok, raise, nexus, internal_framework, neuron_address_invalid,
  miner_mtls_verification, remote_request_failed, remote_request_rejected, remote_response_timeout,
  response_invalid, response_validation, remote_execution, unsupported_axon_protocol, Validation,
  valid, validation_error, other_error,
}
use bittensor_nexus_library.ContextStore.{ContextId}
use bittensor_nexus_library.Communicator.{
  RequestId, PendingRequest, ResponseEnvelope, Outcome, processed, executor_error, Shared, AxonInfo,
}
use bittensor_nexus_library.Communicator.PendingRequests.{put, pop, pop_expired}

-- The subclasses of `AsyncHttpNeuronCommunicatorException`.
unfoldable pub is_communicator_error : NexusException → Bool
is_communicator_error neuron_address_invalid = true
is_communicator_error miner_mtls_verification = true
is_communicator_error remote_request_failed = true
is_communicator_error remote_request_rejected = true
is_communicator_error remote_response_timeout = true
is_communicator_error response_invalid = true
is_communicator_error response_validation = true
is_communicator_error remote_execution = true
is_communicator_error _ = false

-- How the hand-over of a request to the sender's loop ends.
pub data Enqueueing : Type 0 where
  enqueued loop_not_running timed_out failed : Enqueueing

-- How the remote side takes one request: with a status, or an error of the client.
pub data Reply : Type 0 where
  status : ℕ → Reply
  mtls_failure timeout network_error : Reply
  client_error : Exn → Reply

-- `_resolve_neuron_target_url`, where `url_of` is the formatting and pydantic's validation of the url.
unfoldable pub resolve_neuron_target_url :
    (AxonInfo → Result (Unit {0})) → AxonInfo → Result (Unit {0})
resolve_neuron_target_url url_of axon =
    if not axon.is_http
    then raise (nexus unsupported_axon_protocol)
    else if leb_ℤ axon.port (pos 0) || not (leb_ℤ axon.port (pos 65535))
    then raise (nexus neuron_address_invalid)
    else url_of axon

-- `_send_request`: the errors of the client become the communicator's.
unfoldable pub send_request : Reply → Result (Unit {0})
send_request (status code) =
    if ltb code 200
    then raise (nexus remote_request_rejected)
    else if ltb code 300
    then ok tt
    else raise (nexus remote_request_rejected)
send_request mtls_failure = raise (nexus miner_mtls_verification)
send_request timeout = raise (nexus remote_request_failed)
send_request network_error = raise (nexus remote_request_failed)
send_request (client_error e) = raise e

abbrev pub failure_of : Exn → NexusException
failure_of (nexus e) = if is_communicator_error e then e else remote_request_failed
failure_of _ = remote_request_failed

module _ {O : Type 0} where
  abbrev pub emit : ContextId → Outcome O → Shared O → Shared O
  emit ctx outcome s = record s {
    emitted = s.emitted ++ record { ctx_id = ctx; outcome = outcome } ∷ [];
  }

  abbrev pub emit_popped : Option PendingRequest → Outcome O → Shared O → Shared O
  emit_popped none outcome s = s
  emit_popped (some request) outcome s = emit request.ctx_id outcome s

  -- `_fail_pending_request_static`: a request that is pending no more fails silently.
  unfoldable pub fail_pending_request : RequestId → NexusException → Shared O → Shared O
  unfolding pop
  fail_pending_request request_id error s =
      let (request, pending) = pop request_id s.pending in
      emit_popped request (executor_error error) (record s { pending = pending })

  -- The end of the wait of `_enqueue_send_request`.
  unfoldable pub enqueue_send_request : RequestId → Enqueueing → Shared O → Shared O
  unfolding fail_pending_request
  enqueue_send_request request_id enqueued s = s
  enqueue_send_request request_id loop_not_running s =
      fail_pending_request request_id internal_framework s
  enqueue_send_request request_id timed_out s =
      fail_pending_request request_id remote_request_failed s
  enqueue_send_request request_id failed s = fail_pending_request request_id internal_framework s

  -- `dispatch`, up to the wait of `enqueue_send_request`, which ends it and is a step of its own: other
  -- threads run during the wait. `request` holds the uuid7 and the deadline that it computes.
  unfoldable pub dispatch : PendingRequest → Shared O → Result (Unit {0}) × Shared O
  unfolding put
  dispatch request s =
      let (registered, pending) = put request s.pending in
      (registered, record s { pending = pending })

  abbrev pub dispatch_resolved :
      Result (Unit {0}) → PendingRequest → Shared O → Result (Unit {0}) × Shared O
  dispatch_resolved (raise e) request s = (raise e, s)
  dispatch_resolved (ok _) request s = dispatch request s

  -- The two `except` clauses of `handle_input`.
  abbrev pub emit_internal_error : ContextId → Result (Unit {0}) × Shared O → Shared O
  emit_internal_error ctx (ok _, s) = s
  emit_internal_error ctx (raise (nexus e), s) = emit ctx (executor_error e) s
  emit_internal_error ctx (raise _, s) = emit ctx (executor_error remote_request_failed) s

  -- `handle_input` of the communicator's actor; `has_sender` tells whether its threads were started.
  unfoldable pub handle_input :
      (AxonInfo → Result (Unit {0})) → Bool → AxonInfo → PendingRequest → Shared O → Shared O
  unfolding resolve_neuron_target_url dispatch
  handle_input url_of has_sender axon request s =
      if not has_sender
      then emit request.ctx_id (executor_error internal_framework) s
      else emit_internal_error request.ctx_id
          (dispatch_resolved (resolve_neuron_target_url url_of axon) request s)

  abbrev pub after_send : Result (Unit {0}) → RequestId → Shared O → Shared O
  after_send (ok _) request_id s = s
  after_send (raise e) request_id s = fail_pending_request request_id (failure_of e) s

  -- One round of `_sender_worker`.
  unfoldable pub sender_worker : RequestId → Reply → Shared O → Shared O
  unfolding send_request is_communicator_error fail_pending_request
  sender_worker request_id reply s = after_send (send_request reply) request_id s

  -- One round of `_run_timeout_sweep_loop`.
  unfoldable pub timeout_sweep : ℕ → Shared O → Shared O
  unfolding pop_expired
  timeout_sweep now s =
      let (expired, pending) = pop_expired now s.pending in
      record s {
        pending = pending;
        emitted =
            s.emitted
            ++ map
                (λ request. record {
                  ctx_id = request.ctx_id;
                  outcome = executor_error remote_response_timeout;
                })
                expired;
      }

  -- An error that is no `ValidationError` leaves `_process_callback`; the handler of the server, which
  -- calls it, answers 500.
  abbrev pub process_validated : ContextId → Validation O → Shared O → ℕ × Shared O
  process_validated ctx validation_error s = (400, emit ctx (executor_error response_validation) s)
  process_validated ctx (valid output) s = (202, emit ctx (processed output) s)
  process_validated ctx (other_error e) s = (500, s)

module _ {J O : Type 0} (validate : J → Validation O) where
  -- The body of `_process_callback` after the request is found; `validate` is `model_validate`.
  unfoldable pub process_response : ContextId → Option String → Option J → Shared O → ℕ × Shared O
  process_response ctx (some error) output s = (202, emit ctx (executor_error remote_execution) s)
  process_response ctx none none s = (202, emit ctx (executor_error response_invalid) s)
  process_response ctx none (some json) s = process_validated ctx (validate json) s

  unfoldable pub process_popped :
      Option PendingRequest → ResponseEnvelope J → Shared O → ℕ × Shared O
  unfolding process_response
  process_popped none envelope s = (404, s)
  process_popped (some request) envelope s =
      process_response request.ctx_id envelope.error envelope.output s

  -- `_process_callback`; the body is parsed by pydantic, and is `none` where that fails.
  unfoldable pub process_callback : Option (ResponseEnvelope J) → Shared O → ℕ × Shared O
  unfolding pop process_popped
  process_callback none s = (400, s)
  process_callback (some envelope) s =
      let (request, pending) = pop envelope.request_id s.pending in
      process_popped request envelope (record s { pending = pending })
