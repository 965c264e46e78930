-- ===== src/TaskResults.antt =====
-- `InMemoryTaskResultStore` of src/nexus/_internal/core/runtime/task_result_store.py. Its lock makes
-- each method one step. The note that a method adds to its context comes last, so a failure of it
-- leaves the result stored; it is the outcome of a call that the methods take.
pub mod Adds
pub mod Failures
pub mod Laws
pub mod Counts
mod Tests
use bittensor_nexus_library.Prelude.{
  ℕ, ◌+◌, String, Bool, true, false, not, Option, none, some, List, [], ◌∷◌, ◌++◌, map, keep_if,
  nat_eq, string_eq, if◌then◌else◌,
}
use bittensor_nexus_library.Prelude.Int.{ℤ, pos}
use bittensor_nexus_library.Prelude.Dict
use bittensor_nexus_library.Prelude.Dict.{Dict}
use bittensor_nexus_library.Prelude.Sort.{sort_by}
use bittensor_nexus_library.Exceptions.{
  NexusException, Exn, Result, ok, raise, nexus, internal_framework, task_result_not_found,
  executor_failure, key_error,
}
use bittensor_nexus_library.Exceptions.Exec.{
  Exec, pure, throw, lift, modify, gets, continue, ◌>>=◌, ◌>>◌,
}
use bittensor_nexus_library.ContextStore.Persistence.{absent}
use bittensor_nexus_library.Chain.Epoch.{Epoch, contains}

abbrev pub TaskResultId : Type 0
TaskResultId = ℕ

-- An entry, less its payload and its times: the id, the block, the target's hotkey, and the output.
-- Block numbers of stored results are naturals.
pub record TaskResult (O : Type 0) : Type 0 where
  pub id : TaskResultId
  pub block_number : ℕ
  pub hotkey : String
  pub output : O

-- The executor's output in a result to persist: a value, or an exception.
pub data ExecutorOutput (O : Type 0) : Type 0 where
  value : O → ExecutorOutput O
  exception : NexusException → ExecutorOutput O

-- The `by_id` dictionaries hold both kinds.
pub data AnyTaskResult (O : Type 0) : Type 0 where
  successful : TaskResult O → AnyTaskResult O
  failure : TaskResult NexusException → AnyTaskResult O

pub record TaskResultStore (O : Type 0) : Type 0 where
  pub successful_store : Dict String (List (TaskResult O))
  pub executor_failure_store : Dict String (List (TaskResult NexusException))
  pub by_id : Dict String (Dict TaskResultId (AnyTaskResult O))

abbrev pub is_executor_failure : NexusException → Bool
is_executor_failure (executor_failure e) = true
is_executor_failure _ = false

module _ {O : Type 0} where
  unfoldable pub empty : TaskResultStore O
  empty = record { successful_store = []; executor_failure_store = []; by_id = [] }

  -- `if task_name not in ...: ... = []`; `present` is the test.
  abbrev pub with_task : Bool → String → TaskResultStore O → TaskResultStore O
  with_task true task_name s = s
  with_task false task_name s = record {
    successful_store = Dict.put task_name [] s.successful_store;
    executor_failure_store = Dict.put task_name [] s.executor_failure_store;
    by_id = Dict.put task_name [] s.by_id;
  }

  -- `append` to the list of the task, and the entry under its id; the list of a missing task is a `KeyError`.
  abbrev pub store_success :
      TaskResult O
      → String
      → Option (List (TaskResult O))
      → Option (Dict TaskResultId (AnyTaskResult O))
      → Exec (TaskResultStore O) (Unit {0})
  store_success entry name (some results) (some ids) = modify (λ s. record s {
    successful_store = Dict.put name (results ++ entry ∷ []) s.successful_store;
    by_id = Dict.put name (Dict.put entry.id (successful entry) ids) s.by_id;
  })
  store_success entry name (some results) none = do
    modify (λ s. record s {
      successful_store = Dict.put name (results ++ entry ∷ []) s.successful_store;
    })
    throw key_error
  store_success entry name none ids = throw key_error

  abbrev pub store_failure :
      TaskResult NexusException
      → String
      → Option (List (TaskResult NexusException))
      → Option (Dict TaskResultId (AnyTaskResult O))
      → Exec (TaskResultStore O) (Unit {0})
  store_failure entry name (some results) (some ids) = modify (λ s. record s {
    executor_failure_store = Dict.put name (results ++ entry ∷ []) s.executor_failure_store;
    by_id = Dict.put name (Dict.put entry.id (failure entry) ids) s.by_id;
  })
  store_failure entry name (some results) none = do
    modify (λ s. record s {
      executor_failure_store = Dict.put name (results ++ entry ∷ []) s.executor_failure_store;
    })
    throw key_error
  store_failure entry name none ids = throw key_error

  unfoldable pub write_success :
      Result (Unit {0}) → String → TaskResult O → Exec (TaskResultStore O) (TaskResult O)
  write_success note name entry = do
    results ← gets (λ s. Dict.get name s.successful_store)
    ids ← gets (λ s. Dict.get name s.by_id)
    store_success entry name results ids
    lift note
    pure entry

  -- `add_successful_task_result`: `entry` has the uuid7 that it draws, `has_public` tells whether the
  -- public output is there, `note` is the outcome of `append_user_note`.
  unfoldable pub add_success :
      Result (Unit {0}) → String → TaskResult O → Exec (TaskResultStore O) (TaskResult O)
  unfolding write_success
  add_success note name entry = do
    present ← gets (λ s. not (absent (Dict.get name s.successful_store)))
    modify (with_task present name)
    write_success note name entry

  unfoldable pub add_successful_task_result :
      Result (Unit {0})
      → String
      → TaskResultId
      → ℕ
      → String
      → ExecutorOutput O
      → Bool
      → Exec (TaskResultStore O) (TaskResult O)
  unfolding add_success
  add_successful_task_result note name id block hotkey (exception e) has_public =
      throw (nexus internal_framework)
  add_successful_task_result note name id block hotkey (value output) has_public =
      if has_public
      then add_success note name
          (record { id = id; block_number = block; hotkey = hotkey; output = output })
      else throw (nexus internal_framework)

  unfoldable pub write_failure :
      Result (Unit {0})
      → String
      → TaskResult NexusException
      → Exec (TaskResultStore O) (TaskResult NexusException)
  write_failure note name entry = do
    results ← gets (λ s. Dict.get name s.executor_failure_store)
    ids ← gets (λ s. Dict.get name s.by_id)
    store_failure entry name results ids
    lift note
    pure entry

  unfoldable pub add_failure :
      Result (Unit {0})
      → String
      → TaskResult NexusException
      → Exec (TaskResultStore O) (TaskResult NexusException)
  unfolding write_failure
  add_failure note name entry = do
    present ← gets (λ s. not (absent (Dict.get name s.executor_failure_store)))
    modify (with_task present name)
    write_failure note name entry

  unfoldable pub add_executor_failure :
      Result (Unit {0})
      → String
      → TaskResultId
      → ℕ
      → String
      → ExecutorOutput O
      → Exec (TaskResultStore O) (TaskResult NexusException)
  unfolding add_failure
  add_executor_failure note name id block hotkey (value output) = throw (nexus internal_framework)
  add_executor_failure note name id block hotkey (exception e) =
      if is_executor_failure e
      then add_failure note name
          (record { id = id; block_number = block; hotkey = hotkey; output = e })
      else throw (nexus internal_framework)

  abbrev pub found : Option (AnyTaskResult O) → Result (AnyTaskResult O)
  found none = raise (nexus task_result_not_found)
  found (some r) = ok r

  abbrev pub found_in :
      TaskResultId → Option (Dict TaskResultId (AnyTaskResult O)) → Result (AnyTaskResult O)
  found_in id none = raise (nexus task_result_not_found)
  found_in id (some ids) = found (Dict.get id ids)

  unfoldable pub get_task_result :
      String → TaskResultId → TaskResultStore O → Result (AnyTaskResult O)
  get_task_result name id s = found_in id (Dict.get name s.by_id)

-- The results of an epoch, by block; the sort is stable.
unfoldable pub of_epoch : {O : Type 0} → Epoch → List (TaskResult O) → List (TaskResult O)
unfolding contains keep_if sort_by
of_epoch epoch results =
    sort_by (λ r. r.block_number) (keep_if (λ r. contains epoch (pos r.block_number)) results)

abbrev pub of_task : {O : Type 0} → Epoch → Option (List (TaskResult O)) → List (TaskResult O)
of_task epoch none = []
of_task epoch (some results) = of_epoch epoch results

module _ {O : Type 0} where
  unfoldable pub get_successful_tasks_for_epoch :
      String → Epoch → TaskResultStore O → List (TaskResult O)
  unfolding of_epoch
  get_successful_tasks_for_epoch name epoch s = of_task epoch (Dict.get name s.successful_store)

  unfoldable pub get_executor_failures_for_epoch :
      String → Epoch → TaskResultStore O → List (TaskResult NexusException)
  unfolding of_epoch
  get_executor_failures_for_epoch name epoch s =
      of_task epoch (Dict.get name s.executor_failure_store)

-- `Counter(...)`
abbrev pub one_more : Option ℕ → ℕ
one_more none = 1
one_more (some n) = n + 1

unfoldable pub counter : List String → Dict String ℕ → Dict String ℕ
counter [] d = d
counter (x ∷ xs) d = counter xs (Dict.put x (one_more (Dict.get x d)) d)

module _ {O : Type 0} where
  unfoldable pub count_successful_by_hotkey_for_epoch :
      String → Epoch → TaskResultStore O → Dict String ℕ
  unfolding get_successful_tasks_for_epoch counter
  count_successful_by_hotkey_for_epoch name epoch s =
      counter (map (λ r. r.hotkey) (get_successful_tasks_for_epoch name epoch s)) []

  unfoldable pub count_executor_failures_by_hotkey_for_epoch :
      String → Epoch → TaskResultStore O → Dict String ℕ
  unfolding get_executor_failures_for_epoch counter
  count_executor_failures_by_hotkey_for_epoch name epoch s =
      counter (map (λ r. r.hotkey) (get_executor_failures_for_epoch name epoch s)) []
