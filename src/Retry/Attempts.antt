-- ===== src/Retry/Attempts.antt =====
-- One attempt of `RetryStrategyActor`, from a context of a sound store.
use bittensor_nexus_library.Prelude.{
  ℕ, zero, suc, ◌≡◌, refl, ap, ◌∙◌, false, none, some, List, [], ◌∷◌, beq_refl, nat_eq, string_eq,
}
use bittensor_nexus_library.Prelude.Dict
use bittensor_nexus_library.Prelude.Dict.{get-put}
use bittensor_nexus_library.Exceptions.{ok}
use bittensor_nexus_library.Exceptions.Exec.{continue, pure, lift, ◌>>=◌}
use bittensor_nexus_library.ContextStore.{ContextId, DeepDiff, Context, ContextStore}
use bittensor_nexus_library.ContextStore.Store.{get_context}
use bittensor_nexus_library.ContextStore.Durability.{IsStore}
use bittensor_nexus_library.ContextStore.Durability.Writes.{IsExact}
use bittensor_nexus_library.ContextStore.Durability.Updates.{begun-IsLiveIn, set_user_data-IsLiveIn}
use bittensor_nexus_library.Retry.{
  RetryState, Values, RetryStrategy, Message, next_attempt, retries_exhausted, RetryActor, next,
  remove_timer, retry_state_from_context, next_attempt_message, handle_input, handle_failed_attempt,
  trigger_next_attempt, or_new, attempt_again, failed_attempt, on_store,
}

-- A stored retry state is read back.
abbrev pub IsHeld : {V T : Type 0} → Values V T → Type 0
IsHeld {V} {T} values =
    (s : RetryState T)
    → (values.is_none (values.store s) ≡ false) × (values.load (values.store s) ≡ some s)

-- The messages of `n` failures when `left` attempts are left.
abbrev pub schedule : {T : Type 0} → ContextId → T → ℕ → ℕ → List (Message T)
schedule ctx input left zero = []
schedule ctx input zero (suc n) = retries_exhausted ctx ∷ schedule ctx input zero n
schedule ctx input (suc left) (suc n) = next_attempt ctx input ∷ schedule ctx input left n

pub state_held :
    {V T : Type 0} (values : Values V T) (spec : RetryStrategy) (state : RetryState T)
    (c : Context V)
    → IsHeld values
    → Dict.get spec.id c.user_data ≡ some (values.store state)
    → retry_state_from_context values spec c ≡ ok (some state)
unfolding retry_state_from_context
state_held values spec state c held h = rw (h, (held state).0, (held state).1) refl

pub unset_state :
    {V T : Type 0} (values : Values V T) (spec : RetryStrategy) (c : Context V)
    → Dict.get spec.id c.user_data ≡ none
    → retry_state_from_context values spec c ≡ ok none
unfolding retry_state_from_context
unset_state values spec c h = rw h refl

module _ {V T D : Type 0} (values : Values V T) (spec : RetryStrategy) ⦃dd : DeepDiff V D⦄ where
  -- The context is in memory and live, in a sound store, and holds the retry state.
  abbrev pub Holds : ContextId → RetryState T → ContextStore V D → Type 0
  Holds ctx state s =
      IsStore s
      × (c : Context V) × (Dict.get ctx s.contexts ≡ some c)
      × (c.id ≡ ctx)
      × (c.is_completed ≡ false)
      × (Dict.get spec.id c.user_data ≡ some (values.store state))

  abbrev Attempted : ContextId → RetryState T → Context V → ContextStore V D → Type 0
  Attempted ctx state c s =
      (s' : ContextStore V D) × (next_attempt_message values spec c state s
        ≡ (ok (next_attempt ctx state.original_input), s'))
      × Holds ctx (next state) s'

  pub next_attempt_message_run :
      (ctx : ContextId) (state : RetryState T) (c : Context V) (s : ContextStore V D)
      → IsExact dd
      → IsStore s
      → Dict.get ctx s.contexts ≡ some c
      → c.is_completed ≡ false
      → Attempted ctx state c s
  unfolding next_attempt_message
  next_attempt_message_run ctx state c s exact sound found alive =
      let v = values.store (next state) in
      let live = begun-IsLiveIn ctx c s sound found alive in
      let (s', written, (sound', found', names, alive')) =
        set_user_data-IsLiveIn ctx c spec.id v s exact live in
      (
        s',
        ap (λ o. continue o.0 (λ done. pure (next_attempt c.id state.original_input)) o.1) written
            ∙ ap (λ i. (ok (next_attempt i state.original_input), s')) names,
        (
          sound',
          record c { user_data = Dict.put spec.id v c.user_data },
          found',
          names,
          alive',
          get-put spec.id spec.id v c.user_data ∙ rw (beq_refl spec.id) refl,
        ),
      )

  pub handle_input_run :
      (c : Context V) (payload : T) (m : Message T) (s s' : ContextStore V D)
      → retry_state_from_context values spec c ≡ ok none
      → next_attempt_message values spec c (record { original_input = payload; attempts = 0 }) s
        ≡ (ok m, s')
      → handle_input values spec c payload s ≡ (ok (m ∷ []), s')
  unfolding handle_input
  handle_input_run c payload m s s' unset done =
      ap
        (λ r.
          continue r
            (λ state. next_attempt_message values spec c (or_new values spec payload state) >>= λ m.
              pure (m ∷ []))
            s)
        unset
      ∙ ap (λ o. continue o.0 (λ m. pure (m ∷ [])) o.1) done

  attempt_again_run :
      (c : Context V) (state : RetryState T) (m : Message T) (s s' : ContextStore V D)
      → next_attempt_message values spec c state s ≡ (ok m, s')
      → attempt_again values spec c (some state) s ≡ (ok (m ∷ []), s')
  attempt_again_run c state m s s' done = ap (λ o. continue o.0 (λ m. pure (m ∷ [])) o.1) done

  pub handle_failed_attempt_run :
      (c : Context V) (state : RetryState T) (a : RetryActor V D)
      → retry_state_from_context values spec c ≡ ok (some state)
      → handle_failed_attempt values spec c a ≡ failed_attempt values spec c (some state) a
  unfolding handle_failed_attempt
  handle_failed_attempt_run c state a held =
      ap (λ r. continue r (failed_attempt values spec c) a) held

  pub trigger_run :
      (ctx : ContextId) (c : Context V) (state : RetryState T) (m : Message T) (a : RetryActor V D)
      (s' : ContextStore V D)
      → get_context ctx a.context_store ≡ (ok c, a.context_store)
      → retry_state_from_context values spec c ≡ ok (some state)
      → next_attempt_message values spec c state a.context_store ≡ (ok m, s')
      → trigger_next_attempt values spec ctx a
        ≡ (ok (m ∷ []), record { context_store = s'; timers = remove_timer ctx a.timers })
  unfolding trigger_next_attempt
  trigger_run ctx c state m a s' got held done =
      let a₁ = record a { timers = remove_timer ctx a.timers } in
      let again = λ (c : Context V).
        (lift (retry_state_from_context values spec c) >>= λ o.
        on_store (attempt_again values spec c o)) in
      ap (λ o. continue o.0 again (record a₁ { context_store = o.1 })) got
      ∙ ap (λ r. continue r (λ o. on_store (attempt_again values spec c o)) a₁) held
      ∙ ap (λ o. (o.0, record a₁ { context_store = o.1 }))
          (attempt_again_run c state m a.context_store s' done)
