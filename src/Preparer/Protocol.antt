-- ===== src/Preparer/Protocol.antt =====
-- What a `TaskResultPreparerActor` promises for one context: it waits for the conversion of at most one
-- successful execution.
use bittensor_nexus_library.Prelude.{Option, none, some, List, [], ◌∷◌, ◌++◌, if◌then◌else◌}
use bittensor_nexus_library.Exceptions.{internal_framework}
use bittensor_nexus_library.ContextStore.{ContextId}
use bittensor_nexus_library.TaskResults.{ExecutorOutput, value, exception, is_executor_failure}
use bittensor_nexus_library.Preparer.{
  StoredTaskExecution, Sent, executor_output_for_conversion, prepared_successful_task_result,
  prepared_executor_failure, error, Event, timestamped_result, converted_public_output,
  conversion_failed,
}

module _ {P O U : Type 0} (ctx : ContextId) where
  abbrev pub step_output :
      StoredTaskExecution P O
      → ExecutorOutput O
      → Option (StoredTaskExecution P O)
      → List (Sent P O U) × Option (StoredTaskExecution P O)
  step_output result (exception e) pending = (
    (if is_executor_failure e
          then prepared_executor_failure ctx result
          else error ctx internal_framework)
        ∷ [],
    pending,
  )
  step_output result (value output) none =
      (executor_output_for_conversion ctx output ∷ [], some result)
  step_output result (value output) (some pending) =
      (error ctx internal_framework ∷ [], some pending)

  -- The events that are sent, and the execution that is pending then.
  abbrev pub step :
      Event P O U
      → Option (StoredTaskExecution P O)
      → List (Sent P O U) × Option (StoredTaskExecution P O)
  step (timestamped_result result) pending =
      step_output result result.executor_output.output pending
  step (converted_public_output public_output) none = (error ctx internal_framework ∷ [], none)
  step (converted_public_output public_output) (some result) =
      (prepared_successful_task_result ctx result public_output ∷ [], none)
  step (conversion_failed e) pending = (error ctx e ∷ [], none)

  abbrev pub steps :
      List (Event P O U)
      → Option (StoredTaskExecution P O)
      → List (Sent P O U) × Option (StoredTaskExecution P O)
  steps [] pending = ([], pending)
  steps (event ∷ events) pending =
      let (first, pending') = step event pending in
      let (rest, pending'') = steps events pending' in (first ++ rest, pending'')
