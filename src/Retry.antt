-- ===== src/Retry.antt =====
-- `RetryStrategyActor` of src/nexus/_internal/actors/retry_strategy.py, on the context store that it
-- keeps its state in. A timer is the id of the context that it was started for; it fires in a step
-- of its own.
pub mod Attempts
pub mod Laws
mod Tests
use bittensor_nexus_library.Prelude.{
  ℕ, zero, suc, ◌+◌, String, Bool, true, false, Option, none, some, List, [], ◌∷◌, ◌++◌, leb, ◌==◌,
  contains, nat_eq, string_eq, if◌then◌else◌,
}
use bittensor_nexus_library.Prelude.Dict
use bittensor_nexus_library.Exceptions.{
  Exn, Result, ok, raise, nexus, internal_framework, internal_state_corruption,
}
use bittensor_nexus_library.Exceptions.Exec.{
  Exec, pure, throw, lift, modify, gets, continue, ◌>>=◌, ◌>>◌,
}
use bittensor_nexus_library.ContextStore.{ContextId, DeepDiff, Context, ContextStore}
use bittensor_nexus_library.ContextStore.Store.{get_context, set_user_data}

pub record RetryState (T : Type 0) : Type 0 where
  pub original_input : T
  pub attempts : ℕ

-- How Python's values hold retry states: `load` is `isinstance(value, RetryState)`.
pub record Values (V T : Type 0) : Type 0 where
  pub store : RetryState T → V
  pub is_none : V → Bool
  pub load : V → Option (RetryState T)

-- The parameters of a `RetryStrategy` that the actor reads.
pub record RetryStrategy : Type 0 where
  pub id : String
  pub max_attempts : ℕ

-- What the actor sends: the input again, or `RetriesExhaustedException`.
pub data Message (T : Type 0) : Type 0 where
  next_attempt : ContextId → T → Message T
  retries_exhausted : ContextId → Message T

pub record RetryActor (V D : Type 0) : Type 0 where
  pub context_store : ContextStore V D
  pub timers : List ContextId

abbrev pub next : {T : Type 0} → RetryState T → RetryState T
next state = record state { attempts = state.attempts + 1 }

-- `set.remove` of a thread that is there once
unfoldable pub remove_timer : ContextId → List ContextId → List ContextId
remove_timer ctx [] = []
remove_timer ctx (t ∷ timers) =
    let rest = remove_timer ctx timers in if t == ctx then timers else t ∷ rest

abbrev pub sent : {T : Type 0} → Result (List (Message T)) → List (Message T)
sent (ok messages) = messages
sent (raise e) = []

module _ {V D : Type 0} where
  abbrev pub on_store {ℓ} : {A : Type ℓ} → Exec (ContextStore V D) A → Exec (RetryActor V D) A
  on_store m a = let (r, s) = m a.context_store in (r, record a { context_store = s })

  abbrev pub schedule_next_attempt : ContextId → Exec (RetryActor V D) (Unit {0})
  schedule_next_attempt ctx = modify (λ a. record a { timers = ctx ∷ a.timers })

module _ {V T : Type 0} (values : Values V T) (spec : RetryStrategy) where
  abbrev pub loaded : Option (RetryState T) → Result (Option (RetryState T))
  loaded none = raise (nexus internal_framework)
  loaded (some state) = ok (some state)

  abbrev pub state_of : Option V → Result (Option (RetryState T))
  state_of none = ok none
  state_of (some v) = if values.is_none v then ok none else loaded (values.load v)

  unfoldable pub retry_state_from_context : Context V → Result (Option (RetryState T))
  retry_state_from_context c = state_of (Dict.get spec.id c.user_data)

  abbrev pub or_new : T → Option (RetryState T) → RetryState T
  or_new payload none = record { original_input = payload; attempts = 0 }
  or_new payload (some state) = state

  module _ {D : Type 0} ⦃dd : DeepDiff V D⦄ where
    unfoldable pub next_attempt_message :
        Context V → RetryState T → Exec (ContextStore V D) (Message T)
    unfolding set_user_data
    next_attempt_message c state = do
      set_user_data c spec.id (values.store (next state))
      pure (next_attempt c.id state.original_input)

    unfoldable pub handle_input : Context V → T → Exec (ContextStore V D) (List (Message T))
    unfolding retry_state_from_context next_attempt_message
    handle_input c payload = do
      state ← lift (retry_state_from_context c)
      message ← next_attempt_message c (or_new payload state)
      pure (message ∷ [])

    abbrev pub failed_attempt :
        Context V → Option (RetryState T) → Exec (RetryActor V D) (List (Message T))
    failed_attempt c none = throw (nexus internal_state_corruption)
    failed_attempt c (some state) =
        if leb spec.max_attempts state.attempts
        then pure (retries_exhausted c.id ∷ [])
        else (schedule_next_attempt c.id >> pure [])

    unfoldable pub handle_failed_attempt : Context V → Exec (RetryActor V D) (List (Message T))
    unfolding retry_state_from_context
    handle_failed_attempt c = do state ← lift (retry_state_from_context c); failed_attempt c state

    abbrev pub attempt_again :
        Context V → Option (RetryState T) → Exec (ContextStore V D) (List (Message T))
    attempt_again c none = pure []
    attempt_again c (some state) = do message ← next_attempt_message c state; pure (message ∷ [])

    -- `trigger_next_attempt`, what the timer of a context runs.
    unfoldable pub trigger_next_attempt : ContextId → Exec (RetryActor V D) (List (Message T))
    unfolding get_context retry_state_from_context next_attempt_message remove_timer
    trigger_next_attempt ctx = do
      modify (λ a. record a { timers = remove_timer ctx a.timers })
      c ← on_store (get_context ctx)
      state ← lift (retry_state_from_context c)
      on_store (attempt_again c state)

    -- The actor's loop on one event: the messages of a handler that raises are none.
    unfoldable pub deliver_input :
        ContextId → T → RetryActor V D → List (Message T) × RetryActor V D
    unfolding handle_input
    deliver_input ctx payload a =
        let (r, a') = (on_store (get_context ctx >>= λ c. handle_input c payload)) a in (sent r, a')

    unfoldable pub deliver_failed_attempt :
        ContextId → RetryActor V D → List (Message T) × RetryActor V D
    unfolding handle_failed_attempt
    deliver_failed_attempt ctx a =
        let (r, a') = (on_store (get_context ctx) >>= handle_failed_attempt) a in (sent r, a')

    unfoldable pub fire : ContextId → RetryActor V D → List (Message T) × RetryActor V D
    unfolding trigger_next_attempt
    fire ctx a =
        let (r, a') = trigger_next_attempt ctx a in
        if contains ctx a.timers then (sent r, a') else ([], a)

    -- A failed attempt, and then the timer if one was started.
    unfoldable pub round : ContextId → RetryActor V D → List (Message T) × RetryActor V D
    unfolding deliver_failed_attempt fire
    round ctx a =
        let (first, a') = deliver_failed_attempt ctx a in
        let (second, a'') = fire ctx a' in (first ++ second, a'')

    unfoldable pub rounds : ℕ → ContextId → RetryActor V D → List (Message T) × RetryActor V D
    unfolding round
    rounds zero ctx a = ([], a)
    rounds (suc n) ctx a =
        let (first, a') = round ctx a in let (rest, a'') = rounds n ctx a' in (first ++ rest, a'')
