-- ===== src/ContextStore.antt =====
-- Contexts and their log: src/nexus/_internal/core/runtime/context_store_types.py, and the state of
-- src/nexus/_internal/core/runtime/context_store.py. A `ContextId` is a uuid7 string that the code
-- only compares, sorts and uses as a key; a number stands for it. Creation times are left out.
pub mod Persistence
pub mod Store
pub mod Recovery
pub mod Durability
pub mod History
pub mod Guarantees
pub mod Completion
pub mod Examples
mod Tests
use bittensor_nexus_library.Prelude.{ℕ, String, Bool, List, Option}
use bittensor_nexus_library.Prelude.Dict.{Dict}

abbrev pub ContextId : Type 0
ContextId = ℕ

abbrev pub StepIdx : Type 0
StepIdx = ℕ

-- The deepdiff library over the values `V` that contexts hold: `delta a b` is the pickled
-- `Delta(DeepDiff(a, b))`, `apply` adds one to a value, and `differs` is `len(DeepDiff(a, b)) != 0`.
-- `null` is Python's `None`.
pub record DeepDiff (V D : Type 0) : Type 0 where
  pub null : V
  pub delta : V → V → D
  pub apply : V → D → V
  pub differs : V → V → Bool

pub record MessageSent (D : Type 0) : Type 0 where
  pub source : String
  pub payload_delta : D

pub record ParentContextSnapshot (V : Type 0) : Type 0 where
  pub ctx_id : ContextId
  pub payload : V
  pub user_data : Dict String V

-- The union of the log entries' models.
pub data LogEntryData (V D : Type 0) : Type 0 where
  message_sent : MessageSent D → LogEntryData V D
  user_data_change : String → D → LogEntryData V D
  user_note : String → LogEntryData V D
  context_data_initialized : V → Dict String V → List (ParentContextSnapshot V) → LogEntryData V D
  child_context_created : ContextId → LogEntryData V D
  context_created : List ContextId → LogEntryData V D
  context_completed : LogEntryData V D

-- `LogEntry`; its field `data` is `entry`.
pub record LogEntry (V D : Type 0) : Type 0 where
  pub ctx : ContextId
  pub step_idx : StepIdx
  pub entry : LogEntryData V D

-- The fields of a `Context` object. Its reference to the store is the store that each method takes.
pub record Context (V : Type 0) : Type 0 where
  pub id : ContextId
  pub payload : V
  pub user_data : Dict String V
  pub parent_contexts : List (ParentContextSnapshot V)
  pub is_completed : Bool

-- `InMemoryContextStorePersistence`: the log of each context, and the children of each.
pub record InMemoryPersistence (V D : Type 0) : Type 0 where
  pub logs : Dict ContextId (List (LogEntry V D))
  pub context_tree : Dict ContextId (List ContextId)

-- `ContextStore`: the persistence, the contexts, and the contexts that have a lock. A lock is held
-- within one operation only, so what is left of it between operations is that it is registered.
pub record ContextStore (V D : Type 0) : Type 0 where
  pub persistence : InMemoryPersistence V D
  pub contexts : Dict ContextId (Context V)
  pub locks : List ContextId
