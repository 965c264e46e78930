-- ===== src/Preparer/Tests.antt =====
-- A preparer whose executions are numbers, kept as themselves and one.
use bittensor_nexus_library.Prelude.{
  ℕ, ◌≡◌, refl, Bool, true, false, Option, none, some, List, [], ◌∷◌, map, inl, inr, nat_eq,
  string_eq, String, Bool-cases, arith, contains,
}
use native.Mathlib.Decide.{ℕ_discrete}
use bittensor_nexus_library.Prelude.Dict
use bittensor_nexus_library.Exceptions.{NexusException, remote_execution}
use bittensor_nexus_library.ContextStore.{DeepDiff, Context, ContextStore}
use bittensor_nexus_library.ContextStore.Store
use bittensor_nexus_library.ContextStore.Persistence
use bittensor_nexus_library.ContextStore.Durability.Writes.{IsExact}
use bittensor_nexus_library.ContextStore.History.{create, run, Reachable, initially, called}
use bittensor_nexus_library.ContextStore.History.Laws.{Reachable-IsStore}
use bittensor_nexus_library.ContextStore.Durability.Updates.{begun-IsLiveIn}
use bittensor_nexus_library.Chain.BlockBeat.{BlockBeat}
use bittensor_nexus_library.TaskResults.{ExecutorOutput, value}
use bittensor_nexus_library.Runtime.{Actor, loop}
use bittensor_nexus_library.Preparer.{
  StoredTaskExecution, ProcessedInput, Values, Event, timestamped_result, converted_public_output,
  conversion_failed, received,
}
use bittensor_nexus_library.Preparer.Protocol.{steps}
use bittensor_nexus_library.Preparer.Laws.{IsHeld, HasPending, loop-steps}
use bittensor_nexus_library.Preparer.Conversions.{
  Conversion, events_of, answers_of, loop-conversions,
}

abbrev beat : BlockBeat
beat = record { block_number = 9; block_timestamp = 108; block_hash = "0x" }

-- An execution whose only content is the time at which it started.
abbrev execution : ℕ → StoredTaskExecution (Unit {0}) (Unit {0})
execution n = record {
  executor_output = record { input = tt; output = value tt };
  processing_started = n;
  processing_finished = 200;
  block_at_finish = beat;
}

exception-discrete : Discrete NexusException
exception-discrete = hlevel

output-discrete : Discrete (ExecutorOutput (Unit {0}))
output-discrete = hlevel exception-discrete

string_discrete : Discrete String
string_discrete s t = elim (Bool-cases (string_eq.beq s t)) [
  | inl same ↦ yes ((string_eq.beq_iff s t).0 same)
  | inr other ↦ no (λ e. absurd (ground (arith, other, (string_eq.beq_iff s t).1 e)))
]

beat-discrete : Discrete BlockBeat
beat-discrete = hlevel (ℕ_discrete, string_discrete)

processed-discrete : Discrete (ProcessedInput (Unit {0}) (ExecutorOutput (Unit {0})))
processed-discrete = hlevel output-discrete

execution-discrete : Discrete (StoredTaskExecution (Unit {0}) (Unit {0}))
execution-discrete = hlevel (ℕ_discrete, beat-discrete, processed-discrete)

abbrev Value : Type 0
Value = Option (StoredTaskExecution (Unit {0}) (Unit {0}))

value-discrete : Discrete Value
value-discrete = hlevel execution-discrete

abbrev differs : {A : Type 0} → Dec A → Bool
differs (yes e) = false
differs (no n) = true

abbrev executions : DeepDiff Value Value
executions = record {
  null = none;
  delta = λ a b. b;
  apply = λ a d. d;
  differs = λ a b. differs (value-discrete a b);
}

decided : {A : Type 0} (d : Dec A) → differs d ≡ false → A
decided (yes e) h = e
decided (no n) h = absurd (ground (arith, h))

undecided : {A : Type 0} (d : Dec A) → A → differs d ≡ false
undecided (yes e) a = refl
undecided (no n) a = absurd (n a)

executions-IsExact : IsExact executions
executions-IsExact =
    (λ a b. undecided (value-discrete b b) refl, λ a b h. decided (value-discrete a b) h)

abbrev values : Values Value (Unit {0}) (Unit {0})
values = record {
  store = λ r. some r;
  is_none = λ v. elim v [ none ↦ true | some r ↦ false ];
  load = λ v. v;
}

values-IsHeld : IsHeld executions values
values-IsHeld = ((λ r. (refl, refl)), refl, refl)

abbrev begun : ContextStore Value Value
begun = (run ⦃dd = executions⦄ (create 7 []) Store.empty).1

begun-Reachable : Reachable ⦃dd = executions⦄ begun
unfolding Store.empty Persistence.empty Dict.get
begun-Reachable = called (create 7 []) Store.empty refl initially

abbrev context : Context Value
context = record {
  id = 7;
  payload = none;
  user_data = [];
  parent_contexts = [];
  is_completed = false;
}

context_begun : Dict.get 7 begun.contexts ≡ some context
unfolding run Store.create_context Dict.get Dict.put Store.empty Persistence.create_context contains
context_begun = refl

begun-HasPending : HasPending values "pending" ⦃dd = executions⦄ 7 none begun
unfolding Dict.get
begun-HasPending = (
  context,
  begun-IsLiveIn ⦃dd = executions⦄ 7 context begun
      (Reachable-IsStore ⦃dd = executions⦄ executions-IsExact begun begun-Reachable) context_begun
      refl,
  inl refl,
)

abbrev actor : Actor ℕ Value Value
actor = record { state = 0; context_store = begun }

abbrev conversions : List (Conversion (Unit {0}) (Unit {0}) ℕ)
conversions =
    record { result = execution 100; output = tt; public_output = 4 }
    ∷ record { result = execution 150; output = tt; public_output = 5 }
    ∷ []

loop-conversions_example :
    (loop (map (received values "pending" ⦃dd = executions⦄ 7) (events_of conversions)) actor).0
    ≡ answers_of 7 conversions
loop-conversions_example =
    loop-conversions values "pending" ⦃dd = executions⦄ 7 conversions actor executions-IsExact
      values-IsHeld begun-HasPending (refl, (refl, tt))

abbrev events : List (Event (Unit {0}) (Unit {0}) ℕ)
events =
    timestamped_result (execution 100)
    ∷ timestamped_result (execution 101)
    ∷ converted_public_output 4
    ∷ converted_public_output 5
    ∷ conversion_failed remote_execution
    ∷ []

loop-steps_example :
    (a' : Actor ℕ Value Value) × (loop
        (map (received values "pending" ⦃dd = executions⦄ 7) events)
        actor
      ≡ ((steps 7 events none).0, a'))
    × HasPending values "pending" ⦃dd = executions⦄ 7 (steps 7 events none).1 a'.context_store
loop-steps_example =
    loop-steps values "pending" ⦃dd = executions⦄ 7 events none actor executions-IsExact
      values-IsHeld begun-HasPending
