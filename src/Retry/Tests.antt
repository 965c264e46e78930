-- ===== src/Retry/Tests.antt =====
-- The retry schedule, with an input that is a number and states that are kept as pairs.
use bittensor_nexus_library.Prelude.{
  ℕ, zero, suc, ◌-◌, ◌≡◌, refl, true, false, none, some, [], ◌∷◌, string_eq, nat_eq,
}
use bittensor_nexus_library.Prelude.Dict
use bittensor_nexus_library.ContextStore.Examples.{
  numbers, numbers-IsExact, begun, begun-Reachable, context, context_begun,
}
use bittensor_nexus_library.ContextStore.History.Laws.{Reachable-IsStore}
use bittensor_nexus_library.Retry.{
  Values, RetryStrategy, next_attempt, RetryActor, deliver_input, rounds,
}
use bittensor_nexus_library.Retry.Attempts.{IsHeld, schedule}
use bittensor_nexus_library.Retry.Laws.{rounds-schedule}

-- A retry state of no payload, as the number of its attempts and one; 0 is `None`.
abbrev values : Values ℕ (Unit {0})
values = record {
  store = λ state. suc state.attempts;
  is_none = λ v. elim v [ zero ↦ true | suc n ↦ false ];
  load = λ v. elim v [ zero ↦ none | suc n ↦ some (record { original_input = tt; attempts = n }) ];
}

values-IsHeld : IsHeld values
values-IsHeld state = (refl, refl)

abbrev spec : RetryStrategy
spec = record { id = "retry"; max_attempts = 2 }

abbrev actor : RetryActor ℕ ℕ
actor = record { context_store = begun; timers = [] }

no_retry_state : Dict.get spec.id context.user_data ≡ none
unfolding Dict.get
no_retry_state = refl

rounds-schedule_example :
    (a' : RetryActor ℕ ℕ) × (deliver_input values spec ⦃dd = numbers⦄ 7 tt actor
      ≡ (next_attempt 7 tt ∷ [], a'))
    × ((rounds values spec ⦃dd = numbers⦄ 3 7 a').0 ≡ schedule 7 tt (2 - 1) 3)
rounds-schedule_example =
    rounds-schedule values spec ⦃dd = numbers⦄ 3 7 tt context actor numbers-IsExact values-IsHeld
      (Reachable-IsStore ⦃dd = numbers⦄ numbers-IsExact begun begun-Reachable) context_begun refl
      no_retry_state refl
