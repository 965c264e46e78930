-- ===== src/Communicator/Callbacks.antt =====
-- What a callback of src/nexus/_internal/actors/executor_communicator/callback_http_server_runtime.py
-- settles, and what it loses.
use bittensor_nexus_library.Prelude.{
  ℕ, ◌+◌, ◌≡◌, refl, ap, ◌∙◌, ◌⊎◌, true, false, String, Option, none, some, nat_eq, if◌then◌else◌,
  arith, Bool, Bool-cases, inl, inr,
}
use bittensor_nexus_library.Prelude.Dict
use bittensor_nexus_library.Prelude.Dict.{Dict, get-remove}
use bittensor_nexus_library.Exceptions.{
  response_validation, response_invalid, Validation, valid, validation_error, other_error,
}
use bittensor_nexus_library.ContextStore.{ContextId}
use bittensor_nexus_library.Communicator.{
  RequestId, PendingRequest, ResponseEnvelope, Outcome, processed, executor_error, Shared,
}
use bittensor_nexus_library.Communicator.PendingRequests.{pop}
use bittensor_nexus_library.Communicator.Pending.{
  one, IsPending, pending_of-remove, remove-IsPending,
}
use bittensor_nexus_library.Communicator.Threads.{
  emit_popped, process_response, process_validated, process_popped, process_callback,
}
use bittensor_nexus_library.Communicator.Accounts.{
  nobody, accounted, popped-Adds, emit_popped_pending,
}

module _ {O : Type 0} where
  -- A step keeps the store sound and adds `n ctx` to the account, but for `k ctx` that are lost.
  abbrev pub Balances : (ContextId → ℕ) → (ContextId → ℕ) → Shared O → Shared O → Type 0
  Balances n k s s' =
      IsPending s'.pending
      × ((ctx : ContextId) → accounted ctx s' + k ctx ≡ accounted ctx s + n ctx)

  -- Popping a request without an emission loses it.
  dropped-Balances :
      (k : RequestId) (s : Shared O)
      → IsPending s.pending
      → Balances nobody
          (λ ctx. one ctx (Dict.get k s.pending))
          s
          (record s { pending = Dict.remove k s.pending })
  dropped-Balances k s h =
      (remove-IsPending k s.pending h, λ ctx. omega (arith, pending_of-remove ctx k s.pending h.0))

abbrev pub is_other_error : {O : Type 0} → Validation O → Bool
is_other_error (other_error e) = true
is_other_error _ = false

module _ {J O : Type 0} (validate : J → Validation O) where
  -- Validation of the output of a response that has no error raises something other than a
  -- `ValidationError`.
  abbrev pub is_raising : Option String → Option J → Bool
  is_raising (some error) output = false
  is_raising none none = false
  is_raising none (some json) = is_other_error (validate json)

  -- What a callback loses of a context: its pending request, when validation of its output raises.
  abbrev pub lost_by : ContextId → Option (ResponseEnvelope J) → Shared O → ℕ
  lost_by ctx none s = 0
  lost_by ctx (some envelope) s =
      if is_raising envelope.error envelope.output
      then one ctx (Dict.get envelope.request_id s.pending)
      else 0

  -- A callback emits once for its request, if there is one, or emits nothing; which of the two, by
  -- whether validation raises.
  Answers : Option PendingRequest → Bool → Shared O → Shared O → Type 0
  Answers r raising s s' =
      ((o : Outcome O) × (s' ≡ emit_popped r o s) × (raising ≡ false))
      ⊎ ((s' ≡ s) × (raising ≡ true))

  validated-Answers :
      (request : PendingRequest) (v : Validation O) (s : Shared O)
      → Answers (some request) (is_other_error v) s (process_validated request.ctx_id v s).1
  unfolding Answers
  validated-Answers request (valid output) s = inl (processed output, refl, refl)
  validated-Answers request validation_error s =
      inl (executor_error response_validation, refl, refl)
  validated-Answers request (other_error e) s = inr (refl, refl)

  response-Answers :
      (request : PendingRequest) (error : Option String) (output : Option J) (s : Shared O)
      → Answers
          (some request)
          (is_raising error output)
          s
          (process_response validate request.ctx_id error output s).1
  unfolding process_response Answers
  response-Answers request (some error) output s = inl (_, refl, refl)
  response-Answers request none none s = inl (_, refl, refl)
  response-Answers request none (some json) s = validated-Answers request (validate json) s

  popped-Answers :
      (r : Option PendingRequest) (envelope : ResponseEnvelope J) (s : Shared O)
      → Answers r
          (is_raising envelope.error envelope.output)
          s
          (process_popped validate r envelope s).1
  unfolding process_popped Answers
  popped-Answers none envelope s = elim (Bool-cases (is_raising envelope.error envelope.output)) [
    | inl raising ↦ inr (refl, raising)
    | inr quiet ↦ inl (executor_error response_invalid, refl, quiet)
  ]
  popped-Answers (some request) envelope s =
      response-Answers request envelope.error envelope.output s

  pub callback_pending :
      (envelope : ResponseEnvelope J) (s : Shared O)
      → (process_callback validate (some envelope) s).1.pending
        ≡ Dict.remove envelope.request_id s.pending
  unfolding process_callback pop Answers
  callback_pending envelope s =
      let s₁ = record s { pending = Dict.remove envelope.request_id s.pending } in
      elim (popped-Answers (Dict.get envelope.request_id s.pending) envelope s₁) [
        | inl (o, emits, _) ↦
            ap (λ s. s.pending) emits
            ∙ emit_popped_pending (Dict.get envelope.request_id s.pending) o s₁
        | inr (drops, _) ↦ ap (λ s. s.pending) drops
      ]

  pub callback-Balances :
      (body : Option (ResponseEnvelope J)) (s : Shared O)
      → IsPending s.pending
      → Balances nobody (λ ctx. lost_by ctx body s) s (process_callback validate body s).1
  unfolding process_callback pop Answers
  callback-Balances none s h = (h, λ ctx. omega arith)
  callback-Balances (some envelope) s h =
      let k = envelope.request_id in
      let s₁ = record s { pending = Dict.remove k s.pending } in
      elim (popped-Answers (Dict.get k s.pending) envelope s₁) [
        | inl (o, emits, quiet) ↦
            let (kept, adds) = popped-Adds k o s h in
            rw (quiet, emits) (kept, λ ctx. omega (arith, adds ctx))
        | inr (drops, raising) ↦ rw (raising, drops) (dropped-Balances k s h)
      ]
