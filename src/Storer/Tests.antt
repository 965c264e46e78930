-- ===== src/Storer/Tests.antt =====
-- A failed execution that is stored.
use bittensor_nexus_library.Prelude.{ℕ, String, ◌≡◌, refl, some, List, nat_eq, string_eq}
use bittensor_nexus_library.Exceptions.{NexusException, executor_failure, remote_execution}
use bittensor_nexus_library.ContextStore.Durability.Updates.{IsLiveIn, begun-IsLiveIn}
use bittensor_nexus_library.ContextStore.Examples.{
  numbers, numbers-IsExact, begun, begun-Reachable, context, context_begun,
}
use bittensor_nexus_library.ContextStore.History.Laws.{Reachable-IsStore}
use bittensor_nexus_library.TaskResults.{TaskResult, TaskResultStore, exception, empty}
use bittensor_nexus_library.TaskResults.Laws.{empty-IsTaskResultStore}
use bittensor_nexus_library.Runtime.{Actor, handle_event}
use bittensor_nexus_library.Runtime.Patterns.{ReceiveEvent, Sent}
use bittensor_nexus_library.Preparer.{StoredTaskExecution}
use bittensor_nexus_library.Storer.{handle_executor_failure}
use bittensor_nexus_library.Storer.Laws.{Persists, handle_executor_failure-Persists}

abbrev failed : StoredTaskExecution String ℕ
failed = record {
  executor_output = record {
    input = "miner";
    output = exception (executor_failure remote_execution);
  };
  processing_started = 100;
  processing_finished = 200;
  block_at_finish = record { block_number = 9; block_timestamp = 108; block_hash = "0x" };
}

abbrev storer : Actor (TaskResultStore ℕ) ℕ ℕ
storer = record { state = empty; context_store = begun }

abbrev event : ReceiveEvent (StoredTaskExecution String ℕ)
event = record { ctx_id = 7; target = 4; payload = failed }

handle_executor_failure-Persists_example :
    (a' : Actor (TaskResultStore ℕ) ℕ ℕ) × (sent : List
      (Sent (TaskResult NexusException) NexusException))
    × (handle_event
          (record {
            ctx_id = 7;
            handler =
                some (λ c. handle_executor_failure (λ p. p) (λ name n. name) "cats" 1 4 c event);
          })
          storer
        ≡ (sent, a'))
    × Persists
        (λ p. p)
        "cats"
        1
        7
        failed
        (exception (executor_failure remote_execution))
        storer
        sent
        a'
    × IsLiveIn ⦃dd = numbers⦄ 7 context a'.context_store
handle_executor_failure-Persists_example =
    handle_executor_failure-Persists (λ p. p) (λ name n. name) ⦃dd = numbers⦄ "cats" 1 4 context
      event storer
      (begun-IsLiveIn ⦃dd = numbers⦄ 7 context begun
        (Reachable-IsStore ⦃dd = numbers⦄ numbers-IsExact begun begun-Reachable) context_begun refl)
      (empty-IsTaskResultStore ℕ) refl
