-- ===== src/Runtime/Laws.antt =====
-- What the actors' patterns answer, and what a producer emits.
use bittensor_nexus_library.Prelude.{
  ◌≡◌, refl, sym, ap, ◌∙◌, subst, true, false, not, Option, none, some, List, [], ◌∷◌, ◌++◌, map,
  ◌==◌, beq_refl, append_nil, append_assoc, contains, nat_eq, arith, All, inl, inr,
}
use bittensor_nexus_library.Prelude.Dict
use bittensor_nexus_library.Prelude.Dict.{get-put}
use bittensor_nexus_library.Exceptions.{NexusException, Result, ok, raise}
use bittensor_nexus_library.Exceptions.Exec.{Exec, continue, ◌>>◌}
use bittensor_nexus_library.ContextStore.{ContextId, DeepDiff, Context, ContextStore}
use bittensor_nexus_library.ContextStore.Persistence
use bittensor_nexus_library.ContextStore.Persistence.{absent, check_parents, add_child}
use bittensor_nexus_library.ContextStore.Store.{
  from_keys, lock_contexts, snapshots, new_context, lock_context, register_context,
  record_initial_data, create_context,
}
use bittensor_nexus_library.ContextStore.Durability.{IsStore}
use bittensor_nexus_library.ContextStore.Durability.Enrolment.{
  enrolled, unknown, create_context_cases,
}
use bittensor_nexus_library.ContextStore.History.Laws.{get_context_run}
use bittensor_nexus_library.Dsl.Nodes.{Sink}
use bittensor_nexus_library.Runtime.{Actor, produced, call_handler, handle_event}
use bittensor_nexus_library.Runtime.Patterns.{
  ReceiveEvent, Sent, to_left, to_right, wrap, attempt, safe_invoke, fork, fork_handler,
  handle_fork, handle_transform,
}
use bittensor_nexus_library.Runtime.Producer.{Product, put, producer_loop}

-- What a transform answers: its result, or its exception, and nothing when the result is `None`.
abbrev pub answer : {X : Type 0} → ContextId → Result (Option X) → List (Sent X NexusException)
answer ctx (ok none) = []
answer ctx (ok (some v)) = to_left ctx v ∷ []
answer ctx (raise e) = to_right ctx (wrap e) ∷ []

produced-fork :
    {X : Type 0} (ctx : ContextId) (r : Result (Option X))
    → produced (fork ctx (attempt r)) ≡ answer ctx r
unfolding fork
produced-fork ctx (ok none) = refl
produced-fork ctx (ok (some v)) = refl
produced-fork ctx (raise e) = refl

-- What the loop makes of a handler's outcome.
abbrev pub outcome : {M A : Type 0} → Result (List M) × A → List M × A
outcome (r, a) = (produced r, a)

module _ {S V D : Type 0} where
  -- The loop calls a handler on the context in memory.
  pub handle_event_run :
      {M : Type 0} ⦃dd : DeepDiff V D⦄ (ctx : ContextId) (c : Context V)
      (handler : Context V → Exec (Actor S V D) (List M)) (a : Actor S V D)
      → IsStore a.context_store
      → Dict.get ctx a.context_store.contexts ≡ some c
      → handle_event (record { ctx_id = ctx; handler = some handler }) a ≡ outcome (handler c a)
  unfolding handle_event call_handler
  handle_event_run ctx c handler a sound found =
      ap (λ o. outcome (continue o.0 handler (record a { context_store = o.1 })))
        (get_context_run ctx c a.context_store sound found)

  handle_transform_run :
      {P X : Type 0} (spec : Sink) (transform : Context V → P → Exec (Actor S V D) (Option X))
      (c : Context V) (event : ReceiveEvent P) (a : Actor S V D)
      → (event.target == spec) ≡ true
      → outcome (handle_transform spec transform c event a)
        ≡ (answer event.ctx_id (transform c event.payload a).0, (transform c event.payload a).1)
  unfolding handle_transform handle_fork fork_handler safe_invoke
  handle_transform_run spec transform c event a here = rw here (
      ap (λ l. (l, (transform c event.payload a).1))
        (produced-fork event.ctx_id (transform c event.payload a).0))

  -- An event for the sink of a transform, in a context of a sound store, is answered by one message,
  -- whatever the transform does: its result at the ok source, or its exception at the error source,
  -- wrapped unless it is a `NexusException`. Only a result `None` is answered by no message. The
  -- actor is left as the transform left it.
  pub transform-answers :
      {P X : Type 0} ⦃dd : DeepDiff V D⦄ (spec : Sink)
      (transform : Context V → P → Exec (Actor S V D) (Option X)) (c : Context V)
      (event : ReceiveEvent P) (a : Actor S V D)
      → IsStore a.context_store
      → Dict.get event.ctx_id a.context_store.contexts ≡ some c
      → event.target ≡ spec
      → handle_event
          (record {
            ctx_id = event.ctx_id;
            handler = some (λ c. handle_transform spec transform c event);
          })
          a
        ≡ (answer event.ctx_id (transform c event.payload a).0, (transform c event.payload a).1)
  transform-answers spec transform c event a sound found here =
      handle_event_run event.ctx_id c (λ c. handle_transform spec transform c event) a sound found
      ∙ handle_transform_run spec transform c event a ((nat_eq.beq_iff event.target spec).1 here)

-- The events of the products.
abbrev pub product_events : {P : Type 0} → List (ContextId × P) → List (Product P)
product_events = map (λ p. record { ctx_id = p.0; payload = p.1 })

swapped :
    {P : Type 0} (child : ContextId) (products : List (ContextId × P))
    → All (λ p. (child == p.0) ≡ false) products
    → All (λ p. (p.0 == child) ≡ false) products
swapped child [] apart = tt
swapped child ((id, product) ∷ products) (first, apart) = (
  ground (arith, nat_eq.beq_iff child id, nat_eq.beq_iff id child, first),
  swapped child products apart,
)

module _ {V D : Type 0} ⦃dd : DeepDiff V D⦄ where
  -- A context without parents is always created under an id that no log has.
  pub create_root_run :
      (child : ContextId) (s : ContextStore V D)
      → IsStore s
      → Dict.get child s.persistence.logs ≡ none
      → (create_context child [] s
          ≡ (ok (new_context dd.null child []), enrolled child [] (new_context dd.null child []) s))
        × IsStore (enrolled child [] (new_context dd.null child []) s)
  unfolding create_context from_keys lock_contexts snapshots Persistence.create_context
      check_parents add_child register_context record_initial_data lock_context contains
  create_root_run child s sound fresh =
      let unlocked : contains child s.locks ≡ false =
        sound.1 child ∙ ap (λ o. not (absent o)) (unknown child s sound fresh) in
      let registered : (child == child) ≡ true = beq_refl child in
      let run : create_context child [] s ≡ (
        ok (new_context dd.null child []),
        enrolled child [] (new_context dd.null child []) s,
      ) =
        rw (unlocked, registered) refl in
      elim (create_context_cases child [] s sound fresh) [
        | inl (e, failed) ↦ absurd (ground (arith, failed, run))
        | inr (snaps, s', done, found, taken, sound') ↦
            (run, subst IsStore (ap (λ o. o.1) (sym done ∙ run)) sound')
      ]

  -- Ids that no log has, and no two of them alike.
  abbrev pub AreFresh : {P : Type 0} → List (ContextId × P) → ContextStore V D → Type 0
  AreFresh [] s = Unit
  AreFresh ((child, product) ∷ products) s =
      (Dict.get child s.persistence.logs ≡ none)
      × All (λ p. (child == p.0) ≡ false) products
      × AreFresh products s

  AreFresh-enrolled :
      {P : Type 0} (child : ContextId) (c : Context V) (products : List (ContextId × P))
      (s : ContextStore V D)
      → All (λ p. (child == p.0) ≡ false) products
      → AreFresh products s
      → AreFresh products (enrolled child [] c s)
  AreFresh-enrolled child c [] s apart fresh = tt
  AreFresh-enrolled child c ((id, product) ∷ products) s (first, apart) (unused, others, fresh) = (
    get-put child id (Persistence.first_entry child [] ∷ []) s.persistence.logs ∙ rw (first) unused,
    others,
    AreFresh-enrolled child c products s apart fresh,
  )

  -- A context without parents for each product.
  abbrev pub HaveRoots : {P : Type 0} → List (ContextId × P) → ContextStore V D → Type 0
  HaveRoots products s =
      All (λ p. Dict.get p.0 s.contexts ≡ some (new_context dd.null p.0 [])) products

  -- A producer on a sound store, whose ids are fresh, puts one event for each product, in the order
  -- in which they are produced, each under its own new context without parents; contexts of other
  -- ids are left as they were, and the store stays sound.
  pub producer_loop-emits :
      {P : Type 0} (products : List (ContextId × P)) (a : Actor (List (Product P)) V D)
      → IsStore a.context_store
      → AreFresh products a.context_store
      → (a' : Actor (List (Product P)) V D) × (producer_loop products a ≡ (ok tt, a'))
        × (a'.state ≡ a.state ++ product_events products)
        × HaveRoots products a'.context_store
        × ((ctx : ContextId)
            → All (λ p. (p.0 == ctx) ≡ false) products
            → Dict.get ctx a'.context_store.contexts ≡ Dict.get ctx a.context_store.contexts)
        × IsStore a'.context_store
  unfolding producer_loop
  producer_loop-emits [] a sound fresh =
      (a, refl, sym (append_nil a.state), tt, λ ctx none. refl, sound)
  producer_loop-emits {P} ((child, product) ∷ products) a sound (unused, apart, fresh) =
      let (run, sound') = create_root_run child a.context_store sound unused in
      let root = new_context dd.null child [] in
      let a₁ : Actor (List (Product P)) V D = record {
        state = a.state ++ record { ctx_id = child; payload = product } ∷ [];
        context_store = enrolled child [] root a.context_store;
      } in
      let (a', done, sent, roots, kept, sound'') =
        producer_loop-emits products a₁ sound'
          (AreFresh-enrolled child root products a.context_store apart fresh) in
      (
        a',
        ap
              (λ o.
                continue o.0
                  (λ ctx.
                    (put (record { ctx_id = ctx.id; payload = product }) >> producer_loop products))
                  (record a { context_store = o.1 }))
              run
            ∙ done,
        sent
            ∙ append_assoc a.state (record { ctx_id = child; payload = product } ∷ [])
                (product_events products),
        (
          kept child (swapped child products apart)
              ∙ get-put child child root a.context_store.contexts
              ∙ rw (beq_refl child) refl,
          roots,
        ),
        λ ctx (other, others).
            kept ctx others ∙ get-put child ctx root a.context_store.contexts ∙ rw other refl,
        sound'',
      )
