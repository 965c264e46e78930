-- ===== src/Storer/Laws.antt =====
-- What the failure storer stores and answers.
use bittensor_nexus_library.Prelude.{
  ℕ, String, ◌≡◌, refl, ◌∙◌, Bool, true, false, some, List, [], ◌∷◌, ◌==◌, nat_eq, Bool-cases, inl,
  inr,
}
use bittensor_nexus_library.Exceptions.{
  NexusException, ok, internal_framework, retry_task_after_executor_failure,
}
use bittensor_nexus_library.Exceptions.Exec.{continue}
use bittensor_nexus_library.ContextStore.{ContextId, DeepDiff, Context}
use bittensor_nexus_library.ContextStore.Durability.Updates.{IsLiveIn, append_user_note-IsLiveIn}
use bittensor_nexus_library.Dsl.Nodes.{Sink}
use bittensor_nexus_library.TaskResults.{
  TaskResultId, TaskResult, TaskResultStore, ExecutorOutput, value, exception, failure,
  is_executor_failure, add_executor_failure, get_task_result,
}
use bittensor_nexus_library.TaskResults.Adds.{IsTaskResultStore, KeepsOthers}
use bittensor_nexus_library.TaskResults.Failures.{AddsFailure, add_failure_adds}
use bittensor_nexus_library.Runtime.{Actor, handle_event}
use bittensor_nexus_library.Runtime.Laws.{handle_event_run, outcome}
use bittensor_nexus_library.Runtime.Patterns.{ReceiveEvent, Sent, to_left, to_right, safe_invoke}
use bittensor_nexus_library.Preparer.{StoredTaskExecution}
use bittensor_nexus_library.Storer.{answer_failure, persist_failure, handle_executor_failure}

module _ {P O : Type 0} (hotkey : P → String) where
  abbrev pub entry_of :
      TaskResultId → StoredTaskExecution P O → NexusException → TaskResult NexusException
  entry_of id result e = record {
    id = id;
    block_number = result.block_at_finish.block_number;
    hotkey = hotkey result.executor_output.input;
    output = e;
  }

module _ {P O V D : Type 0} (hotkey : P → String) where
  -- A failure is stored, and answered by its record and the call for another attempt, in this order.
  -- Anything else is refused.
  abbrev pub PersistsIf :
      Bool
      → String
      → TaskResultId
      → ContextId
      → StoredTaskExecution P O
      → NexusException
      → Actor (TaskResultStore O) V D
      → List (Sent (TaskResult NexusException) NexusException)
      → Actor (TaskResultStore O) V D
      → Type 0
  PersistsIf true name id ctx result e a sent a' =
      (sent
        ≡ to_left ctx (entry_of hotkey id result e)
          ∷ to_right ctx retry_task_after_executor_failure
          ∷ [])
      × AddsFailure name (entry_of hotkey id result e) a.state a'.state
      × IsTaskResultStore a'.state
      × (get_task_result name id a'.state ≡ ok (failure (entry_of hotkey id result e)))
      × KeepsOthers name id a.state a'.state
  PersistsIf false name id ctx result e a sent a' =
      (sent ≡ to_right ctx internal_framework ∷ []) × (a' ≡ a)

  abbrev pub Persists :
      String
      → TaskResultId
      → ContextId
      → StoredTaskExecution P O
      → ExecutorOutput O
      → Actor (TaskResultStore O) V D
      → List (Sent (TaskResult NexusException) NexusException)
      → Actor (TaskResultStore O) V D
      → Type 0
  Persists name id ctx result (exception e) =
      PersistsIf (is_executor_failure e) name id ctx result e
  Persists name id ctx result (value output) =
      PersistsIf false name id ctx result internal_framework

module _ {P O V D : Type 0} (hotkey : P → String) (note : String → ℕ → String)
    ⦃dd : DeepDiff V D⦄ where
  -- The actor's answer, after its target is checked.
  abbrev answered :
      String
      → TaskResultId
      → Context V
      → StoredTaskExecution P O
      → Actor (TaskResultStore O) V D
      → List (Sent (TaskResult NexusException) NexusException) × Actor (TaskResultStore O) V D
  answered name id c result a = outcome (
      continue (safe_invoke (persist_failure hotkey note name id c result) a).0
        (λ payloads a. (answer_failure c.id payloads, a))
        (safe_invoke (persist_failure hotkey note name id c result) a).1)

  stored_or_refused :
      (name : String) (id : TaskResultId) (ctx : ContextId) (c : Context V)
      (result : StoredTaskExecution P O) (o : ExecutorOutput O) (a : Actor (TaskResultStore O) V D)
      → IsLiveIn ctx c a.context_store
      → IsTaskResultStore a.state
      → result.executor_output.output ≡ o
      → (a' : Actor (TaskResultStore O) V D) × (sent : List
          (Sent (TaskResult NexusException) NexusException))
        × (answered name id c result a ≡ (sent, a'))
        × Persists hotkey name id ctx result o a sent a'
        × IsLiveIn ctx c a'.context_store
  unfolding safe_invoke persist_failure add_executor_failure answer_failure
  stored_or_refused name id ctx c result (value output) a live sound same =
      (a, to_right ctx internal_framework ∷ [], rw (same, live.2) refl, (refl, refl), live)
  stored_or_refused name id ctx c result (exception e) a live sound same =
      elim (Bool-cases (is_executor_failure e)) [
        | inl fails ↦
            let (s', stored, adds, sound', back, others) =
              add_failure_adds name (entry_of hotkey id result e) a.state sound in
            let (cs', noted, live') =
              append_user_note-IsLiveIn ctx c (note name result.block_at_finish.block_number)
                a.context_store live in
            rw fails (
              record { state = s'; context_store = cs' },
              to_left ctx (entry_of hotkey id result e)
                  ∷ to_right ctx retry_task_after_executor_failure
                  ∷ [],
              rw (same, fails, stored, noted, live.2) refl,
              (refl, adds, sound', back, others),
              live',
            )
        | inr other ↦ rw other (
          a,
          to_right ctx internal_framework ∷ [],
          rw (same, other, live.2) refl,
          (refl, refl),
          live,
        )
      ]

  -- In a live context of a sound store, an event at the failure storer's sink that carries an executor
  -- failure is stored once under the task and its new id, and answered by the stored record and then
  -- the call for another attempt; one that carries anything else changes nothing and is answered by
  -- an internal error only. The context stays live; the lists of other tasks and all successes stay as
  -- they are, and every other id leads to what it led to before.
  pub handle_executor_failure-Persists :
      (name : String) (id : TaskResultId) (spec : Sink) (c : Context V)
      (event : ReceiveEvent (StoredTaskExecution P O)) (a : Actor (TaskResultStore O) V D)
      → IsLiveIn event.ctx_id c a.context_store
      → IsTaskResultStore a.state
      → event.target ≡ spec
      → (a' : Actor (TaskResultStore O) V D) × (sent : List
          (Sent (TaskResult NexusException) NexusException))
        × (handle_event
              (record {
                ctx_id = event.ctx_id;
                handler = some (λ c. handle_executor_failure hotkey note name id spec c event);
              })
              a
            ≡ (sent, a'))
        × Persists hotkey name id event.ctx_id event.payload event.payload.executor_output.output a
            sent a'
        × IsLiveIn event.ctx_id c a'.context_store
  unfolding handle_executor_failure
  handle_executor_failure-Persists name id spec c event a live sound target =
      let here : (event.target == spec) ≡ true = (nat_eq.beq_iff event.target spec).1 target in
      let (a', sent, done, persists, live') =
        stored_or_refused name id event.ctx_id c event.payload event.payload.executor_output.output
          a live sound refl in
      (
        a',
        sent,
        handle_event_run event.ctx_id c
              (λ c. handle_executor_failure hotkey note name id spec c event) a live.0 live.1
            ∙ rw here done,
        persists,
        live',
      )
