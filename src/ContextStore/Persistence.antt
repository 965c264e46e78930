-- ===== src/ContextStore/Persistence.antt =====
-- `InMemoryContextStorePersistence` of src/nexus/_internal/core/runtime/context_store.py.
use bittensor_nexus_library.Prelude.{
  Bool, true, false, Option, none, some, List, [], ◌∷◌, ◌++◌, length, nat_eq, if◌then◌else◌,
}
use bittensor_nexus_library.Prelude.Dict
use bittensor_nexus_library.Prelude.Dict.{Dict}
use bittensor_nexus_library.Prelude.Sort.{sort_by}
use bittensor_nexus_library.Exceptions.{nexus, internal_framework, key_error}
use bittensor_nexus_library.Exceptions.Exec.{Exec, pure, throw, modify, gets, ◌>>=◌, ◌>>◌}
use bittensor_nexus_library.ContextStore.{
  ContextId, LogEntry, LogEntryData, InMemoryPersistence, child_context_created, context_created,
}

abbrev pub absent {ℓ} : {A : Type ℓ} → Option A → Bool
absent none = true
absent (some a) = false

module _ {V D : Type 0} where
  unfoldable pub empty : InMemoryPersistence V D
  empty = record { logs = []; context_tree = [] }

  -- `LogEntry(ctx, StepIdx(len(log)), data)`
  abbrev pub next_entry : ContextId → LogEntryData V D → List (LogEntry V D) → LogEntry V D
  next_entry ctx entry log = record { ctx = ctx; step_idx = length log; entry = entry }

  abbrev pub set_log :
      ContextId → List (LogEntry V D) → InMemoryPersistence V D → InMemoryPersistence V D
  set_log ctx log p = record p { logs = Dict.put ctx log p.logs }

  unfoldable pub append_to :
      Option (List (LogEntry V D))
      → ContextId
      → LogEntryData V D
      → Exec (InMemoryPersistence V D) (Unit {0})
  append_to none ctx entry = throw (nexus internal_framework)
  append_to (some log) ctx entry = modify (set_log ctx (log ++ next_entry ctx entry log ∷ []))

  unfoldable pub append_entry :
      ContextId → LogEntryData V D → Exec (InMemoryPersistence V D) (Unit {0})
  unfolding append_to
  append_entry ctx entry = do log ← gets (λ p. Dict.get ctx p.logs); append_to log ctx entry

  -- The first loop of `create_context`.
  unfoldable pub check_parents : List ContextId → Exec (InMemoryPersistence V D) (Unit {0})
  check_parents [] = pure tt
  check_parents (parent ∷ parents) = do
    children ← gets (λ p. Dict.get parent p.context_tree)
    log ← gets (λ p. Dict.get parent p.logs)
    let rest = check_parents parents
    if absent children
        then throw (nexus internal_framework)
        else if absent log
        then throw (nexus internal_framework)
        else rest

  unfoldable pub add_child_to :
      Option (List (LogEntry V D))
      → Option (List ContextId)
      → ContextId
      → ContextId
      → Exec (InMemoryPersistence V D) (Unit {0})
  add_child_to (some log) (some children) child parent = modify (λ p. record p {
    logs = Dict.put parent (log ++ next_entry parent (child_context_created child) log ∷ []) p.logs;
    context_tree = Dict.put parent (children ++ child ∷ []) p.context_tree;
  })
  add_child_to _ _ child parent = throw key_error

  -- The second loop of `create_context`: each parent's log and children get the new context.
  unfoldable pub add_child : ContextId → List ContextId → Exec (InMemoryPersistence V D) (Unit {0})
  unfolding add_child_to
  add_child child [] = pure tt
  add_child child (parent ∷ parents) = do
    log ← gets (λ p. Dict.get parent p.logs)
    children ← gets (λ p. Dict.get parent p.context_tree)
    add_child_to log children child parent
    add_child child parents

  abbrev pub first_entry : ContextId → List ContextId → LogEntry V D
  first_entry child parents = record { ctx = child; step_idx = 0; entry = context_created parents }

  -- `create_context`; `child` is the uuid7 that it draws.
  unfoldable pub create_context :
      ContextId → List ContextId → Exec (InMemoryPersistence V D) ContextId
  unfolding check_parents add_child
  create_context child parents = do
    check_parents parents
    add_child child parents
    modify (λ p. record {
      logs = Dict.put child (first_entry child parents ∷ []) p.logs;
      context_tree = Dict.put child [] p.context_tree;
    })
    pure child

  -- `all_entries.extend(log)` for each log
  unfoldable pub all_entries : Dict ContextId (List (LogEntry V D)) → List (LogEntry V D)
  all_entries [] = []
  all_entries ((_, log) ∷ logs) = log ++ all_entries logs

  unfoldable pub log_entries : InMemoryPersistence V D → List (LogEntry V D)
  unfolding all_entries sort_by
  log_entries p = sort_by (λ entry. entry.step_idx) (all_entries p.logs)
