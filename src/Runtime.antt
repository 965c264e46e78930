-- ===== src/Runtime.antt =====
-- `Actor` of src/nexus/_internal/core/runtime/actor.py: the loop of an actor over the events that it
-- receives. An actor has a state of its own, and shares the context store.
pub mod Patterns
pub mod Producer
pub mod Laws
mod Tests
use bittensor_nexus_library.Prelude.{Option, none, some, List, [], ◌∷◌, ◌++◌}
use bittensor_nexus_library.Exceptions.{Result, ok, raise}
use bittensor_nexus_library.Exceptions.Exec.{Exec, continue, ◌>>=◌}
use bittensor_nexus_library.ContextStore.{ContextId, Context, ContextStore}
use bittensor_nexus_library.ContextStore.Store.{get_context}

pub record Actor (S V D : Type 0) : Type 0 where
  pub state : S
  pub context_store : ContextStore V D

-- An event for a sink that the actor handles, or for one that it does not handle. What the handler
-- reads of the event is in the function.
pub record Received (S V D M : Type 0) : Type 0 where
  pub ctx_id : ContextId
  pub handler : Option (Context V → Exec (Actor S V D) (List M))

-- A handler that raises produces no events.
abbrev pub produced : {M : Type 0} → Result (List M) → List M
produced (ok messages) = messages
produced (raise e) = []

module _ {S V D : Type 0} where
  abbrev pub on_store {ℓ} : {A : Type ℓ} → Exec (ContextStore V D) A → Exec (Actor S V D) A
  on_store m a = let (r, s) = m a.context_store in (r, record a { context_store = s })

  abbrev pub on_state {ℓ} : {A : Type ℓ} → Exec S A → Exec (Actor S V D) A
  on_state m a = let (r, s) = m a.state in (r, record a { state = s })

module _ {S V D M : Type 0} where
  unfoldable pub call_handler :
      ContextId
      → Option (Context V → Exec (Actor S V D) (List M))
      → Actor S V D
      → List M × Actor S V D
  unfolding get_context
  call_handler ctx none a = ([], a)
  call_handler ctx (some handler) a =
      let (r, a') = (on_store (get_context ctx) >>= handler) a in (produced r, a')

  -- One round of `_loop` for an event that is not the stop event.
  unfoldable pub handle_event : Received S V D M → Actor S V D → List M × Actor S V D
  unfolding call_handler
  handle_event event a = call_handler event.ctx_id event.handler a

  -- `_loop` over the events that come before the stop event.
  unfoldable pub loop : List (Received S V D M) → Actor S V D → List M × Actor S V D
  unfolding handle_event
  loop [] a = ([], a)
  loop (event ∷ events) a =
      let (first, a') = handle_event event a in
      let (rest, a'') = loop events a' in (first ++ rest, a'')
