-- ===== src/Communicator.antt =====
-- The asynchronous HTTP communicator of src/nexus/_internal/actors/executor_communicator: its pending
-- requests, and the threads that resolve them. The store's lock makes each `put`, `pop` and
-- `pop_expired` one step, so a run of the threads is a sequence of the steps below. Times are numbers.
pub mod PendingRequests
pub mod Threads
pub mod Pending
pub mod Accounts
pub mod Callbacks
pub mod Laws
mod Tests
use bittensor_nexus_library.Prelude.{ℕ, String, Bool, List, Option}
use bittensor_nexus_library.Prelude.Int.{ℤ}
use bittensor_nexus_library.Prelude.Dict.{Dict}
use bittensor_nexus_library.Exceptions.{NexusException}
use bittensor_nexus_library.ContextStore.{ContextId}

abbrev pub RequestId : Type 0
RequestId = ℕ

-- `PendingAsyncHttpRequest`
pub record PendingRequest : Type 0 where
  pub request_id : RequestId
  pub ctx_id : ContextId
  pub expires_at : ℕ

-- `AsyncHttpNeuronResponseEnvelope`
pub record ResponseEnvelope (J : Type 0) : Type 0 where
  pub request_id : RequestId
  pub output : Option J
  pub error : Option String

-- What a callback emits on `processed`: the payload, or the error of an executor failure.
pub data Outcome (O : Type 0) : Type 0 where
  processed : O → Outcome O
  executor_error : NexusException → Outcome O

pub record Emission (O : Type 0) : Type 0 where
  pub ctx_id : ContextId
  pub outcome : Outcome O

-- The store that the threads share, and what they emitted.
pub record Shared (O : Type 0) : Type 0 where
  pub pending : Dict RequestId PendingRequest
  pub emitted : List (Emission O)

-- Of a neuron's axon: whether its protocol is HTTP, and its port.
pub record AxonInfo : Type 0 where
  pub is_http : Bool
  pub port : ℤ
