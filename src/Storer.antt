-- ===== src/Storer.antt =====
-- The actors of src/nexus/_internal/actors/task_result_storer.py. Their state is the task result store.
pub mod Laws
mod Tests
use bittensor_nexus_library.Prelude.{
  ℕ, String, Option, none, some, not, List, [], ◌∷◌, ◌==◌, nat_eq, if◌then◌else◌,
}
use bittensor_nexus_library.Exceptions.{
  NexusException, Result, ok, raise, nexus, internal_framework, retry_task_after_executor_failure,
}
use bittensor_nexus_library.Exceptions.Exec.{Exec, pure, throw, lift, ◌>>=◌, ◌>>◌}
use bittensor_nexus_library.ContextStore.{ContextId, Context}
use bittensor_nexus_library.ContextStore.Persistence.{absent}
use bittensor_nexus_library.ContextStore.Store.{append_user_note}
use bittensor_nexus_library.Dsl.Nodes.{Sink}
use bittensor_nexus_library.TaskResults.{
  TaskResultId, TaskResult, TaskResultStore, add_successful_task_result, add_executor_failure,
}
use bittensor_nexus_library.Runtime.{Actor, on_state, on_store}
use bittensor_nexus_library.Runtime.Patterns.{
  ReceiveEvent, Sent, to_left, to_right, safe_invoke, handle_transform,
}
use bittensor_nexus_library.Preparer.{StoredTaskExecution}

pub record SuccessfulTaskResultToPersist (P O U : Type 0) : Type 0 where
  pub result : StoredTaskExecution P O
  pub executor_public_output : Option U

-- What the failure storer answers: the stored failure, which it sends from its left source, and an
-- exception, which it sends from its right one.
unfoldable pub answer_failure :
    {R : Type 0}
    → ContextId
    → Option R × Option NexusException
    → Result (List (Sent R NexusException))
answer_failure ctx (stored, some e) = ok (to_right ctx e ∷ [])
answer_failure ctx (none, none) = raise (nexus internal_framework)
answer_failure ctx (some stored, none) =
    ok (to_left ctx stored ∷ to_right ctx retry_task_after_executor_failure ∷ [])

-- The hotkey of the neuron in an execution's input, and the text of a note on a task and a block.
module _ {P O : Type 0} (hotkey : P → String) (note : String → ℕ → String) where
  module _ {V D : Type 0} (task_name : String) (id : TaskResultId) where
    -- `SuccessfulTaskResultStorerActor._transform`; the store's method writes its note last.
    unfoldable pub persist_success :
        {U : Type 0}
        → Context V
        → SuccessfulTaskResultToPersist P O U
        → Exec (Actor (TaskResultStore O) V D) (Option (TaskResult O))
    unfolding add_successful_task_result append_user_note
    persist_success ctx payload = do
      let processed = payload.result.executor_output
      let block = payload.result.block_at_finish.block_number
      stored ← on_state (
          add_successful_task_result (ok tt) task_name id block (hotkey processed.input)
            processed.output (not (absent payload.executor_public_output)))
      on_store (append_user_note ctx (note task_name block))
      pure (some stored)

    unfoldable pub handle_success :
        {U : Type 0}
        → Sink
        → Context V
        → ReceiveEvent (SuccessfulTaskResultToPersist P O U)
        → Exec (Actor (TaskResultStore O) V D) (List (Sent (TaskResult O) NexusException))
    unfolding persist_success handle_transform
    handle_success spec = handle_transform spec persist_success

    -- `ExecutorFailureTaskResultStorerActor._transform`
    unfoldable pub persist_failure :
        Context V
        → StoredTaskExecution P O
        → Exec (Actor (TaskResultStore O) V D) (Option (TaskResult NexusException))
    unfolding add_executor_failure append_user_note
    persist_failure ctx result = do
      let processed = result.executor_output
      let block = result.block_at_finish.block_number
      stored ← on_state (
          add_executor_failure (ok tt) task_name id block (hotkey processed.input) processed.output)
      on_store (append_user_note ctx (note task_name block))
      pure (some stored)

    unfoldable pub handle_executor_failure :
        Sink
        → Context V
        → ReceiveEvent (StoredTaskExecution P O)
        → Exec
            (Actor (TaskResultStore O) V D)
            (List (Sent (TaskResult NexusException) NexusException))
    unfolding persist_failure safe_invoke answer_failure
    handle_executor_failure spec ctx event =
        if event.target == spec
        then (do
          payloads ← safe_invoke (persist_failure ctx event.payload)
          lift (answer_failure ctx.id payloads))
        else throw (nexus internal_framework)
