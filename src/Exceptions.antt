-- ===== src/Exceptions.antt =====
-- src/nexus/_internal/utils/exceptions.py, and the Python errors that the modelled code raises or
-- catches. Messages are left out: the code never reads them back.
pub mod Exec
use bittensor_nexus_library.Prelude.{ℕ, ◌≡◌, refl}

-- The subclasses of `NexusException`.
pub data NexusException : Type 0 where
  internal_state_corruption safe_invoke_wrapped no_routable_neurons : NexusException
  internal_framework flow_misconfigured actor_misconfigured subnet_misconfigured : NexusException
  executor_failure : NexusException → NexusException
  unsupported_axon_protocol : NexusException
  neuron_address_invalid miner_mtls_verification remote_request_failed : NexusException
  remote_request_rejected remote_response_timeout response_invalid : NexusException
  response_validation remote_execution weight_setting : NexusException
  retry_task_after_executor_failure task_result_not_found : NexusException
  embedded_executor_failure retries_exhausted : NexusException

-- What a call may raise: a `NexusException`, an exception of the context store that is none, one
-- of Python's, or one of a callback or a library, by a number.
pub data Exn : Type 0 where
  nexus : NexusException → Exn
  invalid_context_id context_completed : Exn
  value_error key_error type_error runtime_error zero_division index_error : Exn
  foreign : ℕ → Exn

pub data Result {κ} (X : Type κ) : Type κ where
  ok : X → Result X
  raise : Exn → Result X

infixl 5 ◌>>=◌ ◌>>◌
abbrev pub ◌>>=◌ {κ μ} : {X : Type κ} {Y : Type μ} → Result X → (X → Result Y) → Result Y
ok x >>= next = next x
raise e >>= next = raise e

abbrev pub ◌>>◌ {κ} : {Y : Type κ} → Result (Unit {0}) → Result Y → Result Y
first >> rest = first >>= λ done. rest

pub >>=-eq-ok {κ μ} :
    {X : Type κ} {Y : Type μ} (r : Result X) (next : X → Result Y) {y : Y}
    → (r >>= next) ≡ ok y
    → (x : X) × (r ≡ ok x) × (next x ≡ ok y)
>>=-eq-ok (ok x) next e = (x, refl, e)
>>=-eq-ok (raise x) next e = cc

-- What pydantic's validation gives.
pub data Validation (M : Type 0) : Type 0 where
  valid : M → Validation M
  validation_error : Validation M
  other_error : Exn → Validation M
