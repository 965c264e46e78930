-- ===== src/Preparer.antt =====
-- `TaskResultPreparerActor` of src/nexus/_internal/actors/task_result_preparer.py. What it waits for is
-- kept in the context.
pub mod Protocol
pub mod Laws
pub mod Conversions
mod Tests
use bittensor_nexus_library.Prelude.{
  String, Bool, Option, none, some, List, [], ◌∷◌, string_eq, if◌then◌else◌,
}
use bittensor_nexus_library.Prelude.Dict
use bittensor_nexus_library.Exceptions.{NexusException, internal_framework}
use bittensor_nexus_library.Exceptions.Exec.{Exec, pure, ◌>>=◌, ◌>>◌}
use bittensor_nexus_library.ContextStore.{ContextId, DeepDiff, Context, ContextStore}
use bittensor_nexus_library.ContextStore.Store.{set_user_data}
use bittensor_nexus_library.TaskResults.{ExecutorOutput, value, exception, is_executor_failure}
use bittensor_nexus_library.Timestamper.{Timestamped}
use bittensor_nexus_library.Runtime.{Actor, Received, on_store}

pub record ProcessedInput (P O : Type 0) : Type 0 where
  pub input : P
  pub output : O

-- `StoredTaskExecution`, whose output is a value or an exception.
abbrev pub StoredTaskExecution : Type 0 → Type 0 → Type 0
StoredTaskExecution P O = Timestamped (ProcessedInput P (ExecutorOutput O))

-- What the actor sends: `SuccessfulTaskResultToPersist` and `ExecutorFailureTaskResultToPersist` are
-- their fields.
pub data Sent (P O U : Type 0) : Type 0 where
  executor_output_for_conversion : ContextId → O → Sent P O U
  prepared_successful_task_result : ContextId → StoredTaskExecution P O → U → Sent P O U
  prepared_executor_failure : ContextId → StoredTaskExecution P O → Sent P O U
  error : ContextId → NexusException → Sent P O U

-- How Python's values hold executions: `load` is `isinstance(value, Timestamped)`.
pub record Values (V P O : Type 0) : Type 0 where
  pub store : StoredTaskExecution P O → V
  pub is_none : V → Bool
  pub load : V → Option (StoredTaskExecution P O)

-- An event of one of the three sinks.
pub data Event (P O U : Type 0) : Type 0 where
  timestamped_result : StoredTaskExecution P O → Event P O U
  converted_public_output : U → Event P O U
  conversion_failed : NexusException → Event P O U

module _ {V P O D : Type 0} (values : Values V P O) (key : String) ⦃dd : DeepDiff V D⦄ where
  -- The last part of `_handle_timestamped_result`, on what the context holds under the key.
  unfoldable pub convert :
      {U : Type 0}
      → Context V
      → StoredTaskExecution P O
      → O
      → Option V
      → Exec (ContextStore V D) (List (Sent P O U))
  unfolding set_user_data
  convert c result output none = do
    set_user_data c key (values.store result)
    pure (executor_output_for_conversion c.id output ∷ [])
  convert c result output (some v) =
      if values.is_none v
      then (do
        set_user_data c key (values.store result)
        pure (executor_output_for_conversion c.id output ∷ []))
      else pure (error c.id internal_framework ∷ [])

  -- `_handle_timestamped_result`, on the output of the result.
  unfoldable pub handle_output :
      {U : Type 0}
      → Context V
      → StoredTaskExecution P O
      → ExecutorOutput O
      → Exec (ContextStore V D) (List (Sent P O U))
  unfolding convert
  handle_output c result (exception e) =
      if is_executor_failure e
      then pure (prepared_executor_failure c.id result ∷ [])
      else pure (error c.id internal_framework ∷ [])
  handle_output c result (value output) = convert c result output (Dict.get key c.user_data)

  unfoldable pub prepare :
      {U : Type 0}
      → Context V
      → U
      → Option (StoredTaskExecution P O)
      → Exec (ContextStore V D) (List (Sent P O U))
  unfolding set_user_data
  prepare c public_output none = pure (error c.id internal_framework ∷ [])
  prepare c public_output (some result) = do
    set_user_data c key dd.null
    pure (prepared_successful_task_result c.id result public_output ∷ [])

  -- `_handle_converted_public_output`, on what the context holds under the key.
  unfoldable pub handle_converted :
      {U : Type 0} → Context V → U → Option V → Exec (ContextStore V D) (List (Sent P O U))
  unfolding prepare
  handle_converted c public_output none = pure (error c.id internal_framework ∷ [])
  handle_converted c public_output (some v) = prepare c public_output (values.load v)

  unfoldable pub handle_conversion_failed :
      {U : Type 0}
      → Context V
      → NexusException
      → Option V
      → Exec (ContextStore V D) (List (Sent P O U))
  unfolding set_user_data
  handle_conversion_failed c e none = pure (error c.id e ∷ [])
  handle_conversion_failed c e (some v) = do set_user_data c key dd.null; pure (error c.id e ∷ [])

  unfoldable pub handle :
      {U : Type 0} → Event P O U → Context V → Exec (ContextStore V D) (List (Sent P O U))
  unfolding handle_output handle_converted handle_conversion_failed
  handle (timestamped_result result) c = handle_output c result result.executor_output.output
  handle (converted_public_output public_output) c =
      handle_converted c public_output (Dict.get key c.user_data)
  handle (conversion_failed e) c = handle_conversion_failed c e (Dict.get key c.user_data)

  -- An event of a context, as the actor's loop gets it.
  unfoldable pub received : {U S : Type 0} → ContextId → Event P O U → Received S V D (Sent P O U)
  unfolding handle
  received ctx event = record { ctx_id = ctx; handler = some (λ c. on_store (handle event c)) }
