-- ===== src/TaskResults/Failures.antt =====
-- What an added failure changes in the three dictionaries.
use bittensor_nexus_library.Prelude.{
  ◌≡◌, refl, sym, ap, ◌∙◌, String, false, not, some, List, [], ◌∷◌, ◌++◌, nat_eq, string_eq, ◌==◌,
  beq_refl, if◌then◌else◌,
}
use bittensor_nexus_library.Prelude.Dict
use bittensor_nexus_library.Prelude.Dict.{Dict, get-put}
use bittensor_nexus_library.Exceptions.{NexusException, ok}
use bittensor_nexus_library.ContextStore.Persistence.{absent}
use bittensor_nexus_library.TaskResults.{
  TaskResultId, TaskResult, AnyTaskResult, failure, TaskResultStore, with_task, write_failure,
  add_failure, found, found_in, get_task_result,
}
use bittensor_nexus_library.TaskResults.Adds.{
  list_of, get-put_here, absent-put, list_put, still, grown, IsTaskResultStore, KeepsOthers,
  get_task_result-put, with_task-Known,
}

module _ {O : Type 0} where
  -- What an added failure changes, seen by the queries.
  abbrev pub AddsFailure :
      String → TaskResult NexusException → TaskResultStore O → TaskResultStore O → Type 0
  AddsFailure name entry s s' =
      (n : String)
      → (list_of (Dict.get n s'.executor_failure_store) ≡ (
          if name == n
          then list_of (Dict.get n s.executor_failure_store) ++ entry ∷ []
          else list_of (Dict.get n s.executor_failure_store)))
        × (list_of (Dict.get n s'.successful_store) ≡ list_of (Dict.get n s.successful_store))

  write_failure_run :
      (name : String) (entry : TaskResult NexusException) (s : TaskResultStore O)
      (failures : List (TaskResult NexusException)) (ids : Dict TaskResultId (AnyTaskResult O))
      → Dict.get name s.executor_failure_store ≡ some failures
      → Dict.get name s.by_id ≡ some ids
      → write_failure (ok tt) name entry s ≡ (
        ok entry,
        record s {
          executor_failure_store = Dict.put name (failures ++ entry ∷ []) s.executor_failure_store;
          by_id = Dict.put name (Dict.put entry.id (failure entry) ids) s.by_id;
        },
      )
  unfolding write_failure
  write_failure_run name entry s failures ids h₁ h₂ = rw (h₁, h₂) refl

  -- Adding a failure changes the list of its task only, and keeps the dictionaries together.
  pub add_failure_adds :
      (name : String) (entry : TaskResult NexusException) (s : TaskResultStore O)
      → IsTaskResultStore s
      → (s' : TaskResultStore O) × (add_failure (ok tt) name entry s ≡ (ok entry, s'))
        × AddsFailure name entry s s'
        × IsTaskResultStore s'
        × (get_task_result name entry.id s' ≡ ok (failure entry))
        × KeepsOthers name entry.id s s'
  unfolding add_failure get_task_result
  add_failure_adds name entry s sound =
      let s₁ = with_task (not (absent (Dict.get name s.successful_store))) name s in
      let (results, known, failures, f, ids, i, sound₁, ids_kept, same) =
        with_task-Known name s sound in
      let failures' = failures ++ entry ∷ [] in
      let ids' = Dict.put entry.id (failure entry) ids in
      let own : failures ≡ list_of (Dict.get name s.executor_failure_store) =
        ap list_of (sym f) ∙ (same name).1 in
      let back : Dict.get entry.id ids' ≡ some (failure entry) =
        get-put entry.id entry.id (failure entry) ids ∙ rw (beq_refl entry.id) refl in
      let fs' = Dict.put name failures' s₁.executor_failure_store in
      (
        _,
        rw (sound name).0 (write_failure_run name entry s₁ failures ids f i),
        λ n. (
          list_put name failures' s₁.executor_failure_store n
              ∙ grown name n failures entry s₁.executor_failure_store s.executor_failure_store own
                  (same n).1,
          (same n).0,
        ),
        λ n. (
          absent-put name failures' s₁.executor_failure_store n
              ∙ ap (λ b. if name == n then false else b) (sound₁ n).0
              ∙ sym (still name n s₁.successful_store (ap absent known)),
          absent-put name ids' s₁.by_id n
              ∙ ap (λ b. if name == n then false else b) (sound₁ n).1
              ∙ sym (still name n s₁.successful_store (ap absent known)),
        ),
        ap (found_in entry.id) (get-put_here name ids' s₁.by_id) ∙ ap found back,
        λ n j other.
            get_task_result-put name n entry.id j (failure entry) ids s₁.by_id i other
            ∙ ids_kept n j,
      )
