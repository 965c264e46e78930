-- ===== src/Retry/Laws.antt =====
-- How often `RetryStrategyActor` sends the input again.
use bittensor_nexus_library.Prelude.{
  ℕ, zero, suc, ◌+◌, ◌-◌, ◌≡◌, refl, ap, ◌∙◌, true, false, none, some, List, [], ◌∷◌, ◌++◌, leb,
  beq_refl, contains, nat_eq, string_eq, arith, Bool-cases, inl, inr,
}
use bittensor_nexus_library.Prelude.Dict
use bittensor_nexus_library.Prelude.Dict.{get-put}
use bittensor_nexus_library.Exceptions.{Result, ok}
use bittensor_nexus_library.Exceptions.Exec.{continue}
use bittensor_nexus_library.ContextStore.{ContextId, DeepDiff, Context, ContextStore}
use bittensor_nexus_library.ContextStore.Store.{get_context}
use bittensor_nexus_library.ContextStore.Durability.{IsStore}
use bittensor_nexus_library.ContextStore.Durability.Writes.{IsExact}
use bittensor_nexus_library.ContextStore.History.Laws.{get_context_run}
use bittensor_nexus_library.Retry.{
  RetryState, Values, RetryStrategy, Message, next_attempt, retries_exhausted, RetryActor, next,
  remove_timer, sent, retry_state_from_context, handle_input, handle_failed_attempt, failed_attempt,
  deliver_input, deliver_failed_attempt, fire, round, rounds,
}
use bittensor_nexus_library.Retry.Attempts.{
  IsHeld, schedule, Holds, state_held, unset_state, next_attempt_message_run, handle_input_run,
  handle_failed_attempt_run, trigger_run,
}

module _ {V T D : Type 0} (values : Values V T) (spec : RetryStrategy) ⦃dd : DeepDiff V D⦄ where
  deliver_failed_run :
      (ctx : ContextId) (state : RetryState T) (c : Context V) (a : RetryActor V D)
      → get_context ctx a.context_store ≡ (ok c, a.context_store)
      → retry_state_from_context values spec c ≡ ok (some state)
      → deliver_failed_attempt values spec ctx a ≡ (
        sent (failed_attempt values spec c (some state) a).0,
        (failed_attempt values spec c (some state) a).1,
      )
  unfolding deliver_failed_attempt
  deliver_failed_run ctx state c a got held =
      ap (λ (o : Result (List (Message T)) × RetryActor V D). (sent o.0, o.1))
        (ap
            (λ o.
              continue o.0 (handle_failed_attempt values spec) (record a { context_store = o.1 }))
            got
          ∙ handle_failed_attempt_run values spec c state a held)

  -- What the round of a failure comes to.
  abbrev Round : List (Message T) → ContextId → RetryState T → RetryActor V D → Type 0
  Round messages ctx state a =
      (a' : RetryActor V D) × (round values spec ctx a ≡ (messages, a'))
      × (a'.timers ≡ [])
      × Holds values spec ctx state a'.context_store

  -- A failure while attempts are left starts the timer, which sends the input again.
  Round-again :
      (ctx : ContextId) (state : RetryState T) (a : RetryActor V D)
      → IsExact dd
      → IsHeld values
      → Holds values spec ctx state a.context_store
      → a.timers ≡ []
      → leb spec.max_attempts state.attempts ≡ false
      → Round (next_attempt ctx state.original_input ∷ []) ctx (next state) a
  unfolding round fire contains remove_timer
  Round-again ctx state a exact held (sound, c, found, names, alive, set) idle left =
      let got = get_context_run ctx c a.context_store sound found in
      let known = state_held values spec state c held set in
      let (s', done, holds) =
        next_attempt_message_run values spec ctx state c a.context_store exact sound found alive in
      let a₁ = record a { timers = ctx ∷ [] } in
      let failed : deliver_failed_attempt values spec ctx a ≡ ([], a₁) =
        deliver_failed_run ctx state c a got known ∙ rw (left, names, idle) refl in
      let fired : fire values spec ctx a₁ ≡ (
        next_attempt ctx state.original_input ∷ [],
        record a { context_store = s'; timers = [] },
      ) =
        rw
          (
            trigger_run values spec ctx c state (next_attempt ctx state.original_input) a₁ s' got
                known done,
            beq_refl ctx,
          )
          refl in
      (
        record a { context_store = s'; timers = [] },
        ap
              (λ (o : List (Message T) × RetryActor V D).
                (o.0 ++ (fire values spec ctx o.1).0, (fire values spec ctx o.1).1))
              failed
            ∙ ap (λ (o : List (Message T) × RetryActor V D). ([] ++ o.0, o.1)) fired,
        refl,
        holds,
      )

  -- A failure after the last attempt sends the error, and changes nothing.
  Round-exhausted :
      (ctx : ContextId) (state : RetryState T) (a : RetryActor V D)
      → IsHeld values
      → Holds values spec ctx state a.context_store
      → a.timers ≡ []
      → leb spec.max_attempts state.attempts ≡ true
      → Round (retries_exhausted ctx ∷ []) ctx state a
  unfolding round fire contains
  Round-exhausted ctx state a held (sound, c, found, names, alive, set) idle spent =
      let got = get_context_run ctx c a.context_store sound found in
      let known = state_held values spec state c held set in
      let failed : deliver_failed_attempt values spec ctx a ≡ (retries_exhausted ctx ∷ [], a) =
        deliver_failed_run ctx state c a got known ∙ rw (spent, names) refl in
      let unfired : fire values spec ctx a ≡ ([], a) = rw idle refl in
      (
        a,
        ap
              (λ (o : List (Message T) × RetryActor V D).
                (o.0 ++ (fire values spec ctx o.1).0, (fire values spec ctx o.1).1))
              failed
            ∙ ap
                (λ (o : List (Message T) × RetryActor V D).
                  ((retries_exhausted ctx ∷ []) ++ o.0, o.1))
                unfired,
        idle,
        (sound, c, found, names, alive, set),
      )

  rounds_from :
      (n : ℕ) (ctx : ContextId) (state : RetryState T) (a : RetryActor V D)
      → IsExact dd
      → IsHeld values
      → Holds values spec ctx state a.context_store
      → a.timers ≡ []
      → (rounds values spec n ctx a).0
        ≡ schedule ctx state.original_input (spec.max_attempts - state.attempts) n
  unfolding rounds
  rounds_from zero ctx state a exact held holds idle = refl
  rounds_from (suc n) ctx state a exact held holds idle =
      elim (Bool-cases (leb spec.max_attempts state.attempts)) [
        | inl spent ↦
            let (a', once, idle', holds') = Round-exhausted ctx state a held holds idle spent in
            let none_left : spec.max_attempts - state.attempts ≡ 0 = ground arith in
            ap (λ (o : List (Message T) × RetryActor V D). o.0 ++ (rounds values spec n ctx o.1).0)
              once
            ∙ ap (λ l. retries_exhausted ctx ∷ l)
                (rounds_from n ctx state a' exact held holds' idle')
            ∙ rw none_left refl
        | inr left ↦
            let (a', once, idle', holds') = Round-again ctx state a exact held holds idle left in
            let one_less : spec.max_attempts - state.attempts
                ≡ suc (spec.max_attempts - (state.attempts + 1)) =
              ground arith in
            ap (λ (o : List (Message T) × RetryActor V D). o.0 ++ (rounds values spec n ctx o.1).0)
              once
            ∙ ap (λ l. next_attempt ctx state.original_input ∷ l)
                (rounds_from n ctx (next state) a' exact held holds' idle')
            ∙ rw one_less refl
      ]

  -- In a live context of a sound store without retry state, with exact deltas and readable retry
  -- states and no timer running: the input is sent at once, the first `max_attempts - 1` failures each
  -- send it again, unchanged, after their timer, and every later failure sends the exhaustion error.
  pub rounds-schedule :
      (n : ℕ) (ctx : ContextId) (payload : T) (c : Context V) (a : RetryActor V D)
      → IsExact dd
      → IsHeld values
      → IsStore a.context_store
      → Dict.get ctx a.context_store.contexts ≡ some c
      → c.is_completed ≡ false
      → Dict.get spec.id c.user_data ≡ none
      → a.timers ≡ []
      → (a' : RetryActor V D) × (deliver_input values spec ctx payload a
          ≡ (next_attempt ctx payload ∷ [], a'))
        × ((rounds values spec n ctx a').0 ≡ schedule ctx payload (spec.max_attempts - 1) n)
  unfolding deliver_input
  rounds-schedule n ctx payload c a exact held sound found alive unset idle =
      let state : RetryState T = record { original_input = payload; attempts = 0 } in
      let (s', done, holds) =
        next_attempt_message_run values spec ctx state c a.context_store exact sound found alive in
      let got = get_context_run ctx c a.context_store sound found in
      let handled =
        handle_input_run values spec c payload (next_attempt ctx payload) a.context_store s'
          (unset_state values spec c unset) done in
      let a' = record a { context_store = s' } in
      (
        a',
        ap
            (λ (o : Result (List (Message T)) × ContextStore V D).
              (sent o.0, record a { context_store = o.1 }))
            (ap (λ o. continue o.0 (λ c. handle_input values spec c payload) o.1) got ∙ handled),
        rounds_from n ctx (next state) a' exact held holds idle,
      )
