-- ===== src/Rest/Responses.antt =====
-- `RestEntryPointActor` of src/nexus/_internal/actors/rest_entry_point.py: the answer of the graph
-- becomes the response of the waiting request.
pub mod Laws
use bittensor_nexus_library.Prelude.{ℕ, String, Option, none, some, List, [], ◌∷◌}
use bittensor_nexus_library.Exceptions.Exec.{Exec, pure, ◌>>=◌}
use bittensor_nexus_library.ContextStore.{ContextId}
use bittensor_nexus_library.Rest.ErrorBody.{
  Exceptions, ErrorBody, max_exception_depth, exception_message, cause_of, exception_to_error_body,
}
use bittensor_nexus_library.Rest.PendingResponses.{PendingResponses, resolve}

-- What pydantic's `to_jsonable_python` gives: a JSON value, or the exception that it raises.
pub data Serialized (J E : Type 0) : Type 0 where
  jsonable : J → Serialized J E
  not_serializable : E → Serialized J E

-- What the code asks of a payload: `isinstance(payload, BaseException)`, and `to_jsonable_python`.
pub record Payloads (X J E : Type 0) : Type 0 where
  pub as_exception : X → Option E
  pub to_jsonable_python : X → Serialized J E

pub data Body (J : Type 0) : Type 0 where
  json : J → Body J
  error_body : ErrorBody → Body J

pub record PendingHttpResponse (J : Type 0) : Type 0 where
  pub status_code : ℕ
  pub body : Body J

module _ {X J E : Type 0} (view : Exceptions E) (payloads : Payloads X J E) where
  unfoldable pub build_success : Serialized J E → PendingHttpResponse J
  unfolding exception_message
  build_success (jsonable value) = record { status_code = 200; body = json value }
  build_success (not_serializable e) = record {
    status_code = 500;
    body = error_body (record {
      error_type = "ResponseSerializationError";
      message = "Failed to serialize response payload to JSON.";
      causes = cause_of view e ∷ [];
    });
  }

  unfoldable pub build_failure : X → Option E → PendingHttpResponse J
  unfolding build_success exception_to_error_body
  build_failure payload none = build_success (payloads.to_jsonable_python payload)
  build_failure payload (some e) = record {
    status_code = 500;
    body = error_body (exception_to_error_body view max_exception_depth e);
  }

  -- `_build_http_response`
  unfoldable pub build_http_response : X → PendingHttpResponse J
  unfolding build_failure
  build_http_response payload = build_failure payload (payloads.as_exception payload)

  -- `_handle_response`, which sends nothing
  unfoldable pub handle_response :
      {M : Type 0} → ContextId → X → Exec (PendingResponses (PendingHttpResponse J)) (List M)
  unfolding build_http_response resolve
  handle_response ctx payload = do resolved ← resolve ctx (build_http_response payload); pure []
