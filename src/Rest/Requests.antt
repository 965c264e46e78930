-- ===== src/Rest/Requests.antt =====
-- `_dispatch_request` and `_dispatch_post_request` of
-- src/nexus/_internal/actors/rest_entry_point_runtime.py. Messages of error bodies are left out.
pub mod Laws
use bittensor_nexus_library.Prelude.{
  ℕ, String, Bool, true, false, not, Option, none, some, List, [], ◌∷◌, ◌++◌, ◌==◌, string_eq,
  nat_eq, if◌then◌else◌,
}
use bittensor_nexus_library.Prelude.Int.{ℤ, pos, beq_ℤ}
use bittensor_nexus_library.Exceptions.{
  Exn, Result, ok, raise, Validation, valid, validation_error, other_error,
}
use bittensor_nexus_library.Exceptions.Exec.{Exec, pure, throw, modify, ◌>>=◌, ◌>>◌}
use bittensor_nexus_library.ContextStore.{ContextId, DeepDiff, ContextStore}
use bittensor_nexus_library.ContextStore.Store.{create_context}
use bittensor_nexus_library.Runtime.{Actor, on_store, on_state}
use bittensor_nexus_library.Runtime.Producer.{Product}
use bittensor_nexus_library.Rest.PendingResponses.{FutureId, PendingResponses, create, pop, give_up}

-- The Content-Length header, as `int` reads it.
pub data ContentLength : Type 0 where
  absent not_integer : ContentLength
  integer : ℤ → ContentLength

pub record Request (B : Type 0) : Type 0 where
  pub path : String
  pub method : String
  pub content_length : ContentLength
  pub body : Result B

-- `RestEntryPointRuntimeConfig`, as far as a request depends on it; `size` is `len(body)`.
pub record Config (B M : Type 0) : Type 0 where
  pub path : String
  pub size : B → ℕ
  pub model_validate_json : B → Validation M

-- A status code, and the type in the error body.
pub record Rejection : Type 0 where
  pub status_code : ℕ
  pub error_type : String

pub data Checked (M : Type 0) : Type 0 where
  rejected : Rejection → Checked M
  accepted : M → Checked M

module _ {M : Type 0} where
  abbrev pub reject : ℕ → String → Checked M
  reject status_code error_type =
      rejected (record { status_code = status_code; error_type = error_type })

  unfoldable pub check_model : Validation M → Checked M
  check_model (valid model) = accepted model
  check_model validation_error = reject 400 "ValidationError"
  check_model (other_error e) = reject 400 "InvalidRequestBody"

module _ {B M : Type 0} where
  unfoldable pub check_body : Config B M → ℤ → Result B → Checked M
  unfolding check_model
  check_body config n (raise e) = reject 400 "InvalidRequestBody"
  check_body config n (ok body) =
      if beq_ℤ n (pos (config.size body))
      then check_model (config.model_validate_json body)
      else reject 400 "InvalidContentLength"

  unfoldable pub check_length : Config B M → ContentLength → Result B → Checked M
  unfolding check_body
  check_length config absent body = reject 411 "LengthRequired"
  check_length config not_integer body = reject 400 "InvalidContentLength"
  check_length config (integer n) body = check_body config n body

  -- The early returns.
  unfoldable pub check_request : Config B M → Request B → Checked M
  unfolding check_length
  check_request config request =
      if not (request.path == config.path)
      then reject 404 "NotFound"
      else if not (request.method == "POST")
      then reject 405 "MethodNotAllowed"
      else check_length config request.content_length request.body

-- What the request threads and the actor share, and the pipe to the bus.
pub record Server (R M : Type 0) : Type 0 where
  pub responses : PendingResponses R
  pub pipe : List (Product M)

module _ {R M V D : Type 0} where
  abbrev pub on_responses {ℓ} :
      {A : Type ℓ} → Exec (PendingResponses R) A → Exec (Actor (Server R M) V D) A
  on_responses m = on_state (λ s. let (r, p) = m s.responses in (r, record s { responses = p }))

  -- `pipe_to_bus.put`, which may raise; the future of the request is then given back.
  unfoldable pub put_event : Option Exn → ContextId → M → Exec (Actor (Server R M) V D) (Unit {0})
  unfolding pop
  put_event none ctx model =
      on_state
        (modify (λ s. record s { pipe = s.pipe ++ record { ctx_id = ctx; payload = model } ∷ [] }))
  put_event (some e) ctx model = do future ← on_responses (pop ctx); throw e

  -- What an accepted request does before it waits; `child` and `future` are the new id and object.
  unfoldable pub submit :
      ⦃dd : DeepDiff V D⦄
      → ContextId
      → FutureId
      → Option Exn
      → M
      → Exec (Actor (Server R M) V D) FutureId
  unfolding create_context create put_event
  submit child future put_error model = do
    context ← on_store (create_context child [])
    response_future ← on_responses (create context.id future)
    put_event put_error context.id model
    pure response_future

-- How the wait ends.
pub data Awaited (R : Type 0) : Type 0 where
  responded : R → Awaited R
  timed_out cancelled_by_shutdown : Awaited R

pub data Reply (R : Type 0) : Type 0 where
  response : R → Reply R
  failed : Rejection → Reply R

unfoldable pub finish : {R : Type 0} → ContextId → Awaited R → Exec (PendingResponses R) (Reply R)
unfolding give_up
finish ctx (responded r) = pure (response r)
finish ctx timed_out = do
  give_up ctx
  pure (failed (record { status_code = 504; error_type = "GatewayTimeout" }))
finish ctx cancelled_by_shutdown = do
  give_up ctx
  pure (failed (record { status_code = 503; error_type = "ServiceUnavailable" }))
