-- ===== src/TaskResults/Tests.antt =====
-- The theorems on task results, at a small store.
use bittensor_nexus_library.Prelude.{
  ℕ, ◌+◌, ◌≡◌, subst, sym, String, true, string_eq, nat_eq, ◌==◌, if◌then◌else◌, [], ◌∷◌, ◌++◌,
}
use bittensor_nexus_library.Prelude.Int.{pos}
use bittensor_nexus_library.Prelude.Dict
use bittensor_nexus_library.Prelude.Sort.{Ascending}
use bittensor_nexus_library.Exceptions.{ok}
use bittensor_nexus_library.Chain.Epoch.{Epoch, contains}
use bittensor_nexus_library.TaskResults.{
  TaskResult, TaskResultStore, empty, value, successful, add_successful_task_result,
  get_task_result, of_epoch, get_successful_tasks_for_epoch, get_executor_failures_for_epoch,
  count_successful_by_hotkey_for_epoch, count_executor_failures_by_hotkey_for_epoch,
}
use bittensor_nexus_library.TaskResults.Adds.{list_of, IsTaskResultStore, KeepsOthers}
use bittensor_nexus_library.TaskResults.Counts.{add_successful_task_result-count}
use bittensor_nexus_library.TaskResults.Laws.{
  empty-IsTaskResultStore, add_successful_task_result-get, or_zero,
}

abbrev first : TaskResult ℕ
first = record { id = 1; block_number = 20; hotkey = "a"; output = 7 }

abbrev one_result : TaskResultStore ℕ
one_result = (add_successful_task_result (ok tt) "cats" 1 20 "a" (value 7) true empty).1

add_successful_task_result-get_example :
    (s' : TaskResultStore ℕ) × ((add_successful_task_result
        (ok tt)
        "cats"
        1
        20
        "a"
        (value 7)
        true
        empty).1
      ≡ s')
    × IsTaskResultStore s'
    × (get_task_result "cats" 1 s' ≡ ok (successful first))
    × KeepsOthers "cats" 1 empty s'
    × ((n : String) (epoch : Epoch)
        → (get_successful_tasks_for_epoch n epoch s'
            ≡ of_epoch epoch (
                if "cats" == n
                then list_of (Dict.get n (empty {O = ℕ}).successful_store) ++ first ∷ []
                else list_of (Dict.get n (empty {O = ℕ}).successful_store)))
          × Ascending (λ r. r.block_number) (get_successful_tasks_for_epoch n epoch s')
          × (get_executor_failures_for_epoch n epoch s'
              ≡ get_executor_failures_for_epoch n epoch (empty {O = ℕ})))
add_successful_task_result-get_example =
    add_successful_task_result-get (ok tt) "cats" 1 20 "a" 7 empty (empty-IsTaskResultStore ℕ)

abbrev epoch : Epoch
epoch = record { first_block = pos 0; last_block = pos 30 }

one_result-IsTaskResultStore : IsTaskResultStore one_result
one_result-IsTaskResultStore =
    let (s', done, sound, _, _, _) =
      add_successful_task_result-get (ok tt) "cats" 1 20 "a" 7 empty (empty-IsTaskResultStore ℕ) in
    subst IsTaskResultStore (sym done) sound

add_successful_task_result-count_example :
    (s' : TaskResultStore ℕ) × ((add_successful_task_result
        (ok tt)
        "cats"
        2
        25
        "a"
        (value 8)
        true
        one_result).1
      ≡ s')
    × (or_zero (Dict.get "a" (count_successful_by_hotkey_for_epoch "cats" epoch s'))
        ≡ or_zero (Dict.get "a" (count_successful_by_hotkey_for_epoch "cats" epoch one_result)) + 1)
    × (count_executor_failures_by_hotkey_for_epoch "cats" epoch s'
        ≡ count_executor_failures_by_hotkey_for_epoch "cats" epoch one_result)
unfolding contains
add_successful_task_result-count_example =
    add_successful_task_result-count (ok tt) "cats" 2 25 "a" 8 one_result "cats" "a" epoch
      one_result-IsTaskResultStore
