-- ===== src/ContextStore/Examples.antt =====
-- Numbers as values, whose delta is the new number, and a short history of a store.
use bittensor_nexus_library.Prelude.{
  ℕ, ◌≡◌, refl, false, not, ◌==◌, nat_eq, beq_refl, arith, some, [], contains,
}
use bittensor_nexus_library.Prelude.Dict
use bittensor_nexus_library.ContextStore.{DeepDiff, Context, ContextStore}
use bittensor_nexus_library.ContextStore.Store
use bittensor_nexus_library.ContextStore.Persistence
use bittensor_nexus_library.ContextStore.Durability.Writes.{IsExact}
use bittensor_nexus_library.ContextStore.History.{
  create, message, run, Reachable, initially, called,
}

abbrev pub numbers : DeepDiff ℕ ℕ
numbers = record { null = 0; delta = λ a b. b; apply = λ a d. d; differs = λ a b. not (a == b) }

pub numbers-IsExact : IsExact numbers
numbers-IsExact = (λ a b. ground (arith, beq_refl b), λ a b h. ground (arith, h))

abbrev pub begun : ContextStore ℕ ℕ
begun = (run ⦃dd = numbers⦄ (create 7 []) Store.empty).1

abbrev pub messaged : ContextStore ℕ ℕ
messaged = (run ⦃dd = numbers⦄ (message 7 "input" 5) begun).1

pub begun-Reachable : Reachable ⦃dd = numbers⦄ begun
unfolding Store.empty Persistence.empty Dict.get
begun-Reachable = called (create 7 []) Store.empty refl initially

pub messaged-Reachable : Reachable ⦃dd = numbers⦄ messaged
messaged-Reachable = called (message 7 "input" 5) begun tt begun-Reachable

abbrev pub context : Context ℕ
context = record { id = 7; payload = 0; user_data = []; parent_contexts = []; is_completed = false }

pub context_begun : Dict.get 7 begun.contexts ≡ some context
unfolding run Store.create_context Dict.get Dict.put Store.empty Persistence.create_context contains
context_begun = refl
