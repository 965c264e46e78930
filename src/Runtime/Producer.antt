-- ===== src/Runtime/Producer.antt =====
-- `ProducerActor._producer_loop` of src/nexus/_internal/core/runtime/actor_patterns.py. The ids are the
-- uuid7 that the persistence draws.
use bittensor_nexus_library.Prelude.{List, [], ◌∷◌, ◌++◌}
use bittensor_nexus_library.Exceptions.Exec.{Exec, pure, modify, ◌>>=◌, ◌>>◌}
use bittensor_nexus_library.ContextStore.{ContextId, DeepDiff}
use bittensor_nexus_library.ContextStore.Store.{create_context}
use bittensor_nexus_library.Runtime.{Actor, on_store}

-- `SendEvent` of a producer, whose source is `spec.source`.
pub record Product (P : Type 0) : Type 0 where
  pub ctx_id : ContextId
  pub payload : P

module _ {V D P : Type 0} where
  -- `_pipe_to_bus.put`; the state is the pipe.
  abbrev pub put : Product P → Exec (Actor (List (Product P)) V D) (Unit {0})
  put event = modify (λ a. record a { state = a.state ++ event ∷ [] })

module _ {V D P : Type 0} ⦃dd : DeepDiff V D⦄ where
  -- The products that `_produce` yields before it ends, each with an id.
  unfoldable pub producer_loop :
      List (ContextId × P) → Exec (Actor (List (Product P)) V D) (Unit {0})
  unfolding create_context
  producer_loop [] = pure tt
  producer_loop ((child, product) ∷ products) = do
    ctx ← on_store (create_context child [])
    put (record { ctx_id = ctx.id; payload = product })
    producer_loop products
