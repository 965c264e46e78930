-- ===== src/Preparer/Conversions.antt =====
-- Successful executions whose conversions come back.
use bittensor_nexus_library.Prelude.{
  ◌≡◌, refl, ap, ◌∙◌, String, none, List, [], ◌∷◌, ◌++◌, map, All, nat_eq,
}
use bittensor_nexus_library.ContextStore.{ContextId, DeepDiff}
use bittensor_nexus_library.ContextStore.Durability.Writes.{IsExact}
use bittensor_nexus_library.TaskResults.{value}
use bittensor_nexus_library.Runtime.{Actor, loop}
use bittensor_nexus_library.Preparer.{
  StoredTaskExecution, Sent, executor_output_for_conversion, prepared_successful_task_result,
  Values, Event, timestamped_result, converted_public_output, received,
}
use bittensor_nexus_library.Preparer.Protocol.{step_output, steps}
use bittensor_nexus_library.Preparer.Laws.{IsHeld, HasPending, loop-steps}

-- An execution, its output, and the public output that comes back for it.
pub record Conversion (P O U : Type 0) : Type 0 where
  pub result : StoredTaskExecution P O
  pub output : O
  pub public_output : U

abbrev pub IsSuccess : {P O U : Type 0} → Conversion P O U → Type 0
IsSuccess t = t.result.executor_output.output ≡ value t.output

abbrev pub events_of : {P O U : Type 0} → List (Conversion P O U) → List (Event P O U)
events_of [] = []
events_of (t ∷ ts) =
    timestamped_result t.result ∷ converted_public_output t.public_output ∷ events_of ts

abbrev pub answers_of : {P O U : Type 0} → ContextId → List (Conversion P O U) → List (Sent P O U)
answers_of ctx [] = []
answers_of ctx (t ∷ ts) =
    executor_output_for_conversion ctx t.output
    ∷ prepared_successful_task_result ctx t.result t.public_output
    ∷ answers_of ctx ts

steps-conversions :
    {P O U : Type 0} (ctx : ContextId) (ts : List (Conversion P O U))
    → All IsSuccess ts
    → steps ctx (events_of ts) none ≡ (answers_of ctx ts, none)
steps-conversions ctx [] h = refl
steps-conversions ctx (t ∷ ts) (success, h) =
    ap
      (λ output.
        let (first, pending) = step_output ctx t.result output none in
        let (rest, pending') =
          steps ctx (converted_public_output t.public_output ∷ events_of ts) pending in
        (first ++ rest, pending'))
      success
    ∙ ap
        (λ o. (
          executor_output_for_conversion ctx t.output
              ∷ prepared_successful_task_result ctx t.result t.public_output
              ∷ o.0,
          o.1,
        ))
        (steps-conversions ctx ts h)

module _ {V P O D : Type 0} (values : Values V P O) (key : String) ⦃dd : DeepDiff V D⦄ where
  -- In a live context of a sound store with nothing pending, with exact deltas and readable
  -- executions: of successful executions that each get their public output before the next one comes,
  -- every one is sent for conversion once and then comes out with exactly the execution and the public
  -- output that went in.
  pub loop-conversions :
      {U S : Type 0} (ctx : ContextId) (ts : List (Conversion P O U)) (a : Actor S V D)
      → IsExact dd
      → IsHeld dd values
      → HasPending values key ctx none a.context_store
      → All IsSuccess ts
      → (loop (map (received values key ctx) (events_of ts)) a).0 ≡ answers_of ctx ts
  loop-conversions ctx ts a exact held has success =
      let (a', done, has') = loop-steps values key ctx (events_of ts) none a exact held has in
      ap (λ o. o.0) done ∙ ap (λ o. o.0) (steps-conversions ctx ts success)
