-- ===== src/EventBus.antt =====
-- `EventBus` of src/nexus/_internal/core/runtime/event_bus.py: one event of its loop. `draw` gives the
-- uuid7 that is drawn for the child context of a tap.
pub mod Laws
mod Tests
use bittensor_nexus_library.Prelude.{
  ℕ, String, Bool, Option, none, some, List, [], ◌∷◌, ◌++◌, contains, nat_eq, if◌then◌else◌,
}
use bittensor_nexus_library.Exceptions.{key_error}
use bittensor_nexus_library.Exceptions.Exec.{Exec, pure, throw, modify, continue, ◌>>=◌, ◌>>◌}
use bittensor_nexus_library.Dsl.Nodes.{Source, Sink}
use bittensor_nexus_library.Dsl.Pipes.{Targets, Pipes, get_item}
use bittensor_nexus_library.ContextStore.{ContextId, DeepDiff, ContextStore}
use bittensor_nexus_library.ContextStore.Store.{get_context, append_message, create_context}

-- `SendEvent`; `source_id` is the text that the log keeps of the source.
pub record SendEvent (V : Type 0) : Type 0 where
  pub ctx_id : ContextId
  pub payload : V
  pub source : Source
  pub source_id : String

-- `ReceiveEvent`
pub record ReceiveEvent (V : Type 0) : Type 0 where
  pub ctx_id : ContextId
  pub target : Sink
  pub payload : V

-- What the bus changes: the store, and the pipes of the actors, in the order of `put`.
pub record EventBus (V D : Type 0) : Type 0 where
  pub context_store : ContextStore V D
  pub delivered : List (ReceiveEvent V)

module _ {V D : Type 0} where
  abbrev pub on_context_store {ℓ} : {A : Type ℓ} → Exec (ContextStore V D) A → Exec (EventBus V D) A
  on_context_store m b = let (r, s) = m b.context_store in (r, record b { context_store = s })

  -- `_pass_message_to_sink`, where `sinks` are the sinks that an actor handles.
  unfoldable pub pass_message_to_sink :
      List Sink → SendEvent V → Sink → ContextId → Exec (EventBus V D) (Unit {0})
  pass_message_to_sink sinks event sink ctx =
      if contains sink sinks
      then modify (λ b. record b {
        delivered =
            b.delivered ++ record { ctx_id = ctx; target = sink; payload = event.payload } ∷ [];
      })
      else throw key_error

  unfoldable pub pass_to_primary :
      List Sink → SendEvent V → Option Sink → Exec (EventBus V D) (Unit {0})
  unfolding pass_message_to_sink
  pass_to_primary sinks event none = pure tt
  pass_to_primary sinks event (some primary) = pass_message_to_sink sinks event primary event.ctx_id

  unfoldable pub pass_to_taps :
      List Sink → SendEvent V → List (Sink × ContextId) → Exec (EventBus V D) (Unit {0})
  unfolding pass_message_to_sink
  pass_to_taps sinks event [] = pure tt
  pass_to_taps sinks event ((tap, child) ∷ taps) = do
    pass_message_to_sink sinks event tap child
    pass_to_taps sinks event taps

module _ {V D : Type 0} ⦃dd : DeepDiff V D⦄ where
  -- The first loop of `pass_message_downstream`: a child context for each tap.
  unfoldable pub tap_events :
      (Sink → ContextId) → ContextId → List Sink → Exec (ContextStore V D) (List (Sink × ContextId))
  unfolding create_context
  tap_events draw ctx [] = pure []
  tap_events draw ctx (tap ∷ taps) = do
    child ← create_context (draw tap) (ctx ∷ [])
    rest ← tap_events draw ctx taps
    pure ((tap, child.id) ∷ rest)

  unfoldable pub pass_message_downstream :
      Pipes → List Sink → (Sink → ContextId) → SendEvent V → Exec (EventBus V D) (Unit {0})
  unfolding tap_events pass_to_primary pass_to_taps
  pass_message_downstream pipes sinks draw event = do
    let targets = get_item event.source pipes
    events ← on_context_store (tap_events draw event.ctx_id targets.taps)
    pass_to_primary sinks event targets.primary
    pass_to_taps sinks event events

  -- One round of `_loop` for an event that is not the stop event.
  unfoldable pub handle_event :
      Pipes → List Sink → (Sink → ContextId) → SendEvent V → Exec (EventBus V D) (Unit {0})
  unfolding get_context append_message pass_message_downstream
  handle_event pipes sinks draw event = do
    context ← on_context_store (get_context event.ctx_id)
    on_context_store (append_message context event.source_id event.payload)
    pass_message_downstream pipes sinks draw event
