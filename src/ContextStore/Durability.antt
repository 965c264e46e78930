-- ===== src/ContextStore/Durability.antt =====
-- What ties the contexts in memory to the persisted log, src/nexus/_internal/core/runtime/context_store.py.
pub mod Sets
pub mod Append
pub mod Rebuild
pub mod Enrolment
pub mod Creation
pub mod Methods
pub mod Writes
pub mod Updates
use bittensor_nexus_library.Prelude.{
  ℕ, ◌+◌, ◌≡◌, Bool, true, false, not, Option, none, some, List, ◌⊎◌, contains, length, nat_eq,
  if◌then◌else◌,
}
use bittensor_nexus_library.Prelude.Dict
use bittensor_nexus_library.Prelude.Dict.{Dict, IsDict}
use bittensor_nexus_library.Exceptions.{ok}
use bittensor_nexus_library.ContextStore.{
  ContextId, DeepDiff, LogEntry, Context, ContextStore, InMemoryPersistence,
}
use bittensor_nexus_library.ContextStore.Persistence.{absent}
use bittensor_nexus_library.ContextStore.Recovery.Local.{Local, nothing, local_steps}
use bittensor_nexus_library.ContextStore.Recovery.Entries.{IsLog}

-- What recovery keeps of a context: one that is completed is dropped.
abbrev pub live : {V : Type 0} → Context V → Option (Context V)
live c = if c.is_completed then none else some c

abbrev pub live_option : {V : Type 0} → Option (Context V) → Option (Context V)
live_option none = none
live_option (some c) = live c

-- Exactly the contexts in memory have a lock.
abbrev pub Locks : {V : Type 0} → Dict ContextId (Context V) → List ContextId → Type 0
Locks contexts locks = (ctx : ContextId) → contains ctx locks ≡ not (absent (Dict.get ctx contexts))

module _ {V D : Type 0} ⦃dd : DeepDiff V D⦄ where
  -- The replay of a log ends with this context, or with none.
  abbrev pub Replays : Option (Context V) → Bool → List (LogEntry V D) → Type 0
  Replays context completed log =
      (l : Local V D) × (local_steps log nothing ≡ ok l)
      × (l.context ≡ context)
      × (l.completed ≡ completed)
      × (n : ℕ) × (l.step ≡ some n)
      × (length log ≡ n + 1)

  -- A context in memory has a log that replays to it. A context that is not has no log, or one
  -- that ends in its completion.
  abbrev pub Tracked : ContextId → Option (Context V) → InMemoryPersistence V D → Type 0
  Tracked ctx none p =
      (Dict.get ctx p.logs ≡ none)
      ⊎ ((log : List (LogEntry V D)) × (Dict.get ctx p.logs ≡ some log)
          × IsLog ctx 0 log
          × Replays none true log)
  Tracked ctx (some c) p =
      (log : List (LogEntry V D)) × (Dict.get ctx p.logs ≡ some log)
      × (absent (Dict.get ctx p.context_tree) ≡ false)
      × IsLog ctx 0 log
      × (c.id ≡ ctx)
      × Replays (live c) c.is_completed log

  abbrev pub Tracks : Dict ContextId (Context V) → InMemoryPersistence V D → Type 0
  Tracks contexts p = IsDict p.logs × ((ctx : ContextId) → Tracked ctx (Dict.get ctx contexts) p)

  abbrev pub IsStore : ContextStore V D → Type 0
  IsStore s = Tracks s.contexts s.persistence × Locks s.contexts s.locks
