-- ===== src/Preparer/Laws.antt =====
-- `TaskResultPreparerActor` keeps the protocol of its events.
use bittensor_nexus_library.Prelude.{
  ◌≡◌, refl, sym, ap, ◌∙◌, subst, String, true, false, Option, none, some, List, [], ◌∷◌, ◌++◌, map,
  beq_refl, nat_eq, string_eq, arith, Bool-cases, ◌⊎◌, inl, inr,
}
use bittensor_nexus_library.Prelude.Dict
use bittensor_nexus_library.Prelude.Dict.{get-put}
use bittensor_nexus_library.Exceptions.{NexusException, ok}
use bittensor_nexus_library.Exceptions.Exec.{Exec, continue, pure, ◌>>◌}
use bittensor_nexus_library.ContextStore.{ContextId, DeepDiff, Context, ContextStore}
use bittensor_nexus_library.ContextStore.Store.{set_user_data}
use bittensor_nexus_library.ContextStore.Durability.Writes.{IsExact}
use bittensor_nexus_library.ContextStore.Durability.Updates.{IsLiveIn, set_user_data-IsLiveIn}
use bittensor_nexus_library.TaskResults.{ExecutorOutput, value, exception, is_executor_failure}
use bittensor_nexus_library.Runtime.{Actor, on_store, loop}
use bittensor_nexus_library.Runtime.Laws.{outcome, handle_event_run}
use bittensor_nexus_library.Preparer.{
  StoredTaskExecution, Sent, Values, Event, timestamped_result, converted_public_output,
  conversion_failed, convert, handle_output, prepare, handle_converted, handle_conversion_failed,
  handle, received,
}
use bittensor_nexus_library.Preparer.Protocol.{step_output, step, steps}

-- A stored execution is read back, and `None` is none.
abbrev pub IsHeld : {V P O D : Type 0} → DeepDiff V D → Values V P O → Type 0
IsHeld {V} {P} {O} dd values =
    ((r : StoredTaskExecution P O)
      → (values.is_none (values.store r) ≡ false) × (values.load (values.store r) ≡ some r))
    × (values.is_none dd.null ≡ true)
    × (values.load dd.null ≡ none)

-- What a context holds under the key while this execution is pending.
abbrev pub Pends :
    {V P O : Type 0} → Values V P O → V → Option (StoredTaskExecution P O) → Option V → Type 0
Pends values null none held = (held ≡ none) ⊎ (held ≡ some null)
Pends values null (some result) held = held ≡ some (values.store result)

some_inj : {A : Type 0} {a b : A} → some a ≡ some b → a ≡ b
some_inj h = cc

module _ {V P O D : Type 0} (values : Values V P O) (key : String) ⦃dd : DeepDiff V D⦄ where
  abbrev pub HasPending : ContextId → Option (StoredTaskExecution P O) → ContextStore V D → Type 0
  HasPending ctx pending s =
      (c : Context V) × IsLiveIn ctx c s × Pends values dd.null pending (Dict.get key c.user_data)

  -- What a handler comes to.
  abbrev Comes :
      {U : Type 0}
      → ContextId
      → ContextStore V D
      → List (Sent P O U) × Option (StoredTaskExecution P O)
      → Exec (ContextStore V D) (List (Sent P O U))
      → Type 0
  Comes {U} ctx s (events, pending) m =
      (s' : ContextStore V D) × (m s ≡ (ok events, s')) × HasPending ctx pending s'

  write-Comes :
      {U : Type 0} (ctx : ContextId) (c : Context V) (s : ContextStore V D) (v : V)
      (pending : Option (StoredTaskExecution P O)) (events : List (Sent P O U))
      → IsExact dd
      → IsLiveIn ctx c s
      → Pends values dd.null pending (some v)
      → Comes ctx s (events, pending) (set_user_data c key v >> pure events)
  write-Comes {U} ctx c s v pending events exact live pends =
      let (s', written, live') = set_user_data-IsLiveIn ctx c key v s exact live in
      (
        s',
        ap (λ o. continue o.0 (λ done. pure events) o.1) written,
        (
          record c { user_data = Dict.put key v c.user_data },
          live',
          subst (Pends values dd.null pending)
              (sym (get-put key key v c.user_data ∙ rw (beq_refl key) refl)) pends,
        ),
      )

  convert-Comes :
      {U : Type 0} (ctx : ContextId) (c : Context V) (s : ContextStore V D)
      (result : StoredTaskExecution P O) (output : O) (pending : Option (StoredTaskExecution P O))
      (held : Option V)
      → IsExact dd
      → IsHeld dd values
      → IsLiveIn ctx c s
      → Dict.get key c.user_data ≡ held
      → Pends values dd.null pending held
      → Comes ctx s
          (step_output {U = U} c.id result (value output) pending)
          (convert values key {U = U} c result output held)
  unfolding convert
  convert-Comes ctx c s result output none none exact held live at pends =
      write-Comes ctx c s (values.store result) (some result) _ exact live refl
  convert-Comes ctx c s result output none (some v) exact held live at (inl absent) =
      absurd (ground (arith, absent))
  convert-Comes ctx c s result output none (some v) exact held live at (inr null) =
      let unset : values.is_none v ≡ true = ap values.is_none (some_inj null) ∙ held.1 in
      rw unset (write-Comes ctx c s (values.store result) (some result) _ exact live refl)
  convert-Comes ctx c s result output (some pending) none exact held live at pends =
      absurd (ground (arith, pends))
  convert-Comes ctx c s result output (some pending) (some v) exact held live at pends =
      let set : values.is_none v ≡ false =
        ap values.is_none (some_inj pends) ∙ (held.0 pending).0 in
      rw set (s, refl, (c, live, at ∙ pends))

  handle_output-Comes :
      {U : Type 0} (ctx : ContextId) (c : Context V) (s : ContextStore V D)
      (result : StoredTaskExecution P O) (output : ExecutorOutput O)
      (pending : Option (StoredTaskExecution P O))
      → IsExact dd
      → IsHeld dd values
      → IsLiveIn ctx c s
      → Pends values dd.null pending (Dict.get key c.user_data)
      → Comes ctx s
          (step_output {U = U} c.id result output pending)
          (handle_output values key {U = U} c result output)
  unfolding handle_output
  handle_output-Comes ctx c s result (exception e) pending exact held live pends =
      elim (Bool-cases (is_executor_failure e)) [
        | inl failure ↦ rw failure (s, refl, (c, live, pends))
        | inr other ↦ rw other (s, refl, (c, live, pends))
      ]
  handle_output-Comes ctx c s result (value output) pending exact held live pends =
      convert-Comes ctx c s result output pending (Dict.get key c.user_data) exact held live refl
        pends

  converted-Comes :
      {U : Type 0} (ctx : ContextId) (c : Context V) (s : ContextStore V D) (public_output : U)
      (pending : Option (StoredTaskExecution P O)) (held : Option V)
      → IsExact dd
      → IsHeld dd values
      → IsLiveIn ctx c s
      → Dict.get key c.user_data ≡ held
      → Pends values dd.null pending held
      → Comes ctx s
          (step c.id (converted_public_output public_output) pending)
          (handle_converted values key c public_output held)
  unfolding handle_converted prepare
  converted-Comes ctx c s public_output none none exact held live at pends =
      (s, refl, (c, live, inl at))
  converted-Comes ctx c s public_output none (some v) exact held live at (inl absent) =
      absurd (ground (arith, absent))
  converted-Comes ctx c s public_output none (some v) exact held live at (inr null) =
      let unset : values.load v ≡ none = ap values.load (some_inj null) ∙ held.2 in
      rw unset (s, refl, (c, live, inr (at ∙ null)))
  converted-Comes ctx c s public_output (some result) none exact held live at pends =
      absurd (ground (arith, pends))
  converted-Comes ctx c s public_output (some result) (some v) exact held live at pends =
      let loaded : values.load v ≡ some result =
        ap values.load (some_inj pends) ∙ (held.0 result).1 in
      rw loaded (write-Comes ctx c s dd.null none _ exact live (inr refl))

  failed-Comes :
      {U : Type 0} (ctx : ContextId) (c : Context V) (s : ContextStore V D) (e : NexusException)
      (pending : Option (StoredTaskExecution P O)) (held : Option V)
      → IsExact dd
      → IsLiveIn ctx c s
      → Dict.get key c.user_data ≡ held
      → Pends values dd.null pending held
      → Comes ctx s
          (step {U = U} c.id (conversion_failed e) pending)
          (handle_conversion_failed values key {U = U} c e held)
  unfolding handle_conversion_failed
  failed-Comes ctx c s e none none exact live at pends = (s, refl, (c, live, inl at))
  failed-Comes ctx c s e (some result) none exact live at pends = absurd (ground (arith, pends))
  failed-Comes ctx c s e pending (some v) exact live at pends =
      write-Comes ctx c s dd.null none _ exact live (inr refl)

  handle-Comes :
      {U : Type 0} (ctx : ContextId) (c : Context V) (s : ContextStore V D) (event : Event P O U)
      (pending : Option (StoredTaskExecution P O))
      → IsExact dd
      → IsHeld dd values
      → IsLiveIn ctx c s
      → Pends values dd.null pending (Dict.get key c.user_data)
      → Comes ctx s (step c.id event pending) (handle values key event c)
  unfolding handle
  handle-Comes ctx c s (timestamped_result result) pending exact held live pends =
      handle_output-Comes ctx c s result result.executor_output.output pending exact held live pends
  handle-Comes ctx c s (converted_public_output public_output) pending exact held live pends =
      converted-Comes ctx c s public_output pending (Dict.get key c.user_data) exact held live refl
        pends
  handle-Comes ctx c s (conversion_failed e) pending exact held live pends =
      failed-Comes ctx c s e pending (Dict.get key c.user_data) exact live refl pends

  -- In a live context of a sound store, with exact deltas and readable executions, and whatever events
  -- arrive in whatever order: the actor sends what the protocol sends, and what is pending in the
  -- context is what is pending in the protocol. No handler raises.
  pub loop-steps :
      {U S : Type 0} (ctx : ContextId) (events : List (Event P O U))
      (pending : Option (StoredTaskExecution P O)) (a : Actor S V D)
      → IsExact dd
      → IsHeld dd values
      → HasPending ctx pending a.context_store
      → (a' : Actor S V D) × (loop (map (received values key ctx) events) a
          ≡ ((steps ctx events pending).0, a'))
        × HasPending ctx (steps ctx events pending).1 a'.context_store
  unfolding loop received
  loop-steps ctx [] pending a exact held has = (a, refl, has)
  loop-steps {U} {S} ctx (event ∷ events) pending a exact held (c, live, pends) =
      let (s', done, has) =
        handle-Comes ctx c a.context_store event pending exact held live pends in
      let a₁ : Actor S V D = record a { context_store = s' } in
      let has₁ : HasPending ctx (step ctx event pending).1 s' =
        subst (λ i. HasPending ctx (step i event pending).1 s') live.2 has in
      let (a', rest, has') = loop-steps ctx events (step ctx event pending).1 a₁ exact held has₁ in
      let handled =
        handle_event_run ctx c (λ c. on_store {S = S} (handle values key event c)) a live.0 live.1
        ∙ ap (λ o. outcome (o.0, record a { context_store = o.1 })) done
        ∙ ap (λ i. ((step i event pending).0, a₁)) live.2 in
      (
        a',
        ap
              (λ o. (
                o.0 ++ (loop (map (received values key ctx) events) o.1).0,
                (loop (map (received values key ctx) events) o.1).1,
              ))
              handled
            ∙ ap (λ o. ((step ctx event pending).0 ++ o.0, o.1)) rest,
        has',
      )
