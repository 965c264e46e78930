-- ===== src/Runtime/Tests.antt =====
-- A transform that halves even numbers, and a producer of two numbers.
use bittensor_nexus_library.Prelude.{
  ℕ, zero, suc, ◌≡◌, refl, Option, some, List, [], ◌∷◌, ◌++◌, ◌==◌, All, contains, false, nat_eq,
}
use bittensor_nexus_library.Prelude.Dict
use bittensor_nexus_library.Exceptions.{ok, raise, value_error, safe_invoke_wrapped}
use bittensor_nexus_library.Exceptions.Exec.{Exec}
use bittensor_nexus_library.ContextStore.{Context}
use bittensor_nexus_library.ContextStore.Durability.{IsStore}
use bittensor_nexus_library.ContextStore.Examples.{
  numbers, numbers-IsExact, begun, begun-Reachable, context, context_begun,
}
use bittensor_nexus_library.ContextStore.History.{run}
use bittensor_nexus_library.ContextStore.Store
use bittensor_nexus_library.ContextStore.Persistence
use bittensor_nexus_library.ContextStore.History.Laws.{Reachable-IsStore}
use bittensor_nexus_library.Runtime.{Actor, handle_event}
use bittensor_nexus_library.Runtime.Patterns.{
  ReceiveEvent, input, handle_transform, handle_double, from_input, to_right,
}
use bittensor_nexus_library.Runtime.Producer.{Product, producer_loop}
use bittensor_nexus_library.Runtime.Laws.{
  answer, transform-answers, product_events, HaveRoots, AreFresh, producer_loop-emits,
}

abbrev less_one : Context ℕ → ℕ → Exec (Actor ℕ ℕ ℕ) (Option ℕ)
less_one c zero a = (raise value_error, a)
less_one c (suc n) a = (ok (some n), record a { state = suc a.state })

abbrev actor : Actor ℕ ℕ ℕ
actor = record { state = 0; context_store = begun }

abbrev event : ReceiveEvent ℕ
event = record { ctx_id = 7; target = 4; payload = 6 }

transform-answers_example :
    handle_event
      (record { ctx_id = 7; handler = some (λ c. handle_transform 4 less_one c event) })
      actor
    ≡ (answer 7 (less_one context 6 actor).0, (less_one context 6 actor).1)
transform-answers_example =
    transform-answers ⦃dd = numbers⦄ 4 less_one context event actor
      (Reachable-IsStore ⦃dd = numbers⦄ numbers-IsExact begun begun-Reachable) context_begun refl

wrapped :
    handle_double 3 4 less_one less_one context
      (input (record { ctx_id = 7; target = 3; payload = 0 }))
      actor
    ≡ (ok (from_input (to_right 7 safe_invoke_wrapped) ∷ []), actor)
unfolding handle_double handle_transform
wrapped = refl

abbrev products : List (ℕ × ℕ)
products = (1, 50) ∷ (2, 60) ∷ []

abbrev producer : Actor (List (Product ℕ)) ℕ ℕ
producer = record { state = []; context_store = begun }

products_fresh : AreFresh ⦃dd = numbers⦄ products begun
unfolding run Store.create_context Dict.get Dict.put Store.empty Persistence.create_context contains
products_fresh = (refl, (refl, tt), (refl, tt, tt))

producer_loop-emits_example :
    (a' : Actor (List (Product ℕ)) ℕ ℕ) × (producer_loop ⦃dd = numbers⦄ products producer
      ≡ (ok tt, a'))
    × (a'.state ≡ [] ++ product_events products)
    × HaveRoots ⦃dd = numbers⦄ products a'.context_store
    × ((ctx : ℕ)
        → All (λ p. (p.0 == ctx) ≡ false) products
        → Dict.get ctx a'.context_store.contexts ≡ Dict.get ctx begun.contexts)
    × IsStore ⦃dd = numbers⦄ a'.context_store
producer_loop-emits_example =
    producer_loop-emits ⦃dd = numbers⦄ products producer
      (Reachable-IsStore ⦃dd = numbers⦄ numbers-IsExact begun begun-Reachable) products_fresh
