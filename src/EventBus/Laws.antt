-- ===== src/EventBus/Laws.antt =====
-- What the bus delivers of one event.
use bittensor_nexus_library.Prelude.{
  ◌≡◌, refl, sym, ap, ◌∙◌, true, none, some, Option, List, [], ◌∷◌, ◌++◌, map, contains, nat_eq,
  append_nil, append_assoc, arith, All, ◌⊎◌, inl, inr,
}
use bittensor_nexus_library.Exceptions.{Exn, Result, ok, raise}
use bittensor_nexus_library.Exceptions.Exec.{pure, continue, ◌>>◌}
use bittensor_nexus_library.Dsl.Nodes.{Sink}
use bittensor_nexus_library.Dsl.Pipes.{Targets, Pipes, get_item}
use bittensor_nexus_library.ContextStore.{ContextId, DeepDiff, Context, ContextStore}
use bittensor_nexus_library.ContextStore.Store.{create_context}
use bittensor_nexus_library.EventBus.{
  SendEvent, ReceiveEvent, EventBus, pass_message_to_sink, pass_to_primary, pass_to_taps,
  tap_events, pass_message_downstream,
}

module _ {V : Type 0} where
  abbrev pub received : SendEvent V → Sink × ContextId → ReceiveEvent V
  received event t = record { ctx_id = t.1; target = t.0; payload = event.payload }

  -- What the targets of a source get: the primary the event's own context, each tap its child.
  abbrev pub to_primary : SendEvent V → Option Sink → List (ReceiveEvent V)
  to_primary event none = []
  to_primary event (some primary) = received event (primary, event.ctx_id) ∷ []

-- Every target has an actor.
abbrev pub AreHandled : List Sink → Targets → Type 0
AreHandled sinks targets =
    All (λ tap. contains tap sinks ≡ true) targets.taps
    × ((primary : Sink) → targets.primary ≡ some primary → contains primary sinks ≡ true)

module _ {V D : Type 0} where
  -- The bus with more deliveries.
  abbrev deliver : List (ReceiveEvent V) → EventBus V D → EventBus V D
  deliver events b = record b { delivered = b.delivered ++ events }

  pass_to_taps_run :
      (sinks : List Sink) (event : SendEvent V) (taps : List (Sink × ContextId)) (b : EventBus V D)
      → All (λ t. contains t.0 sinks ≡ true) taps
      → pass_to_taps sinks event taps b ≡ (ok tt, deliver (map (received event) taps) b)
  unfolding pass_to_taps pass_message_to_sink
  pass_to_taps_run sinks event [] b h =
      ap (λ l. (ok tt, record b { delivered = l })) (sym (append_nil b.delivered))
  pass_to_taps_run sinks event (t ∷ taps) b (known, h) =
      let b₁ = deliver (received event t ∷ []) b in
      rw known (
        pass_to_taps_run sinks event taps b₁ h
        ∙ ap (λ l. (ok tt, record b { delivered = l }))
            (append_assoc b.delivered (received event t ∷ []) (map (received event) taps)))

  pass_to_primary_run :
      (sinks : List Sink) (event : SendEvent V) (primary : Option Sink) (b : EventBus V D)
      → ((p : Sink) → primary ≡ some p → contains p sinks ≡ true)
      → pass_to_primary sinks event primary b ≡ (ok tt, deliver (to_primary event primary) b)
  unfolding pass_to_primary pass_message_to_sink
  pass_to_primary_run sinks event none b h =
      ap (λ l. (ok tt, record b { delivered = l })) (sym (append_nil b.delivered))
  pass_to_primary_run sinks event (some p) b h = rw (h p refl) refl

handled_firsts :
    (sinks taps : List Sink) (events : List (Sink × ContextId))
    → map (λ t. t.0) events ≡ taps
    → All (λ tap. contains tap sinks ≡ true) taps
    → All (λ t. contains t.0 sinks ≡ true) events
handled_firsts sinks taps [] e h = tt
handled_firsts sinks [] (t ∷ events) e h = absurd (ground (arith, e))
handled_firsts sinks (tap ∷ taps) (t ∷ events) e (known, h) =
    (ground (arith, known, e), handled_firsts sinks taps events (ground (arith, e)) h)

module _ {V D : Type 0} ⦃dd : DeepDiff V D⦄ where
  -- The child contexts of some taps, created one after another.
  pub data Children (draw : Sink → ContextId) (ctx : ContextId)
      : List Sink → ContextStore V D → List (Sink × ContextId) → ContextStore V D → Type 0 where
    all_created : {s : ContextStore V D} → Children draw ctx [] s [] s
    created :
        {tap : Sink} {taps : List Sink} {s s₁ s' : ContextStore V D} {child : Context V}
        {events : List (Sink × ContextId)}
        → create_context (draw tap) (ctx ∷ []) s ≡ (ok child, s₁)
        → Children draw ctx taps s₁ events s'
        → Children draw ctx (tap ∷ taps) s ((tap, child.id) ∷ events) s'

  -- The creation of one of them raises, after those before it were created.
  pub data FailsAt (draw : Sink → ContextId) (ctx : ContextId)
      : List Sink → ContextStore V D → Exn → ContextStore V D → Type 0 where
    at_first :
        {tap : Sink} {taps : List Sink} {s s' : ContextStore V D} {e : Exn}
        → create_context (draw tap) (ctx ∷ []) s ≡ (raise e, s')
        → FailsAt draw ctx (tap ∷ taps) s e s'
    after_one :
        {tap : Sink} {taps : List Sink} {s s₁ s' : ContextStore V D} {child : Context V} {e : Exn}
        → create_context (draw tap) (ctx ∷ []) s ≡ (ok child, s₁)
        → FailsAt draw ctx taps s₁ e s'
        → FailsAt draw ctx (tap ∷ taps) s e s'

  abbrev TapEvents : (Sink → ContextId) → ContextId → List Sink → ContextStore V D → Type 0
  TapEvents draw ctx taps s =
      (s' : ContextStore V D) × (((e : Exn) × (tap_events draw ctx taps s ≡ (raise e, s'))
          × FailsAt draw ctx taps s e s')
        ⊎ ((events : List (Sink × ContextId)) × (tap_events draw ctx taps s ≡ (ok events, s'))
            × (map (λ t. t.0) events ≡ taps)
            × Children draw ctx taps s events s'))

  Result-cases :
      {A : Type 0} (o : Result A × ContextStore V D)
      → (s' : ContextStore V D) × (((e : Exn) × (o ≡ (raise e, s'))) ⊎ ((a : A) × (o ≡ (ok a, s'))))
  Result-cases (ok a, s') = (s', inr (a, refl))
  Result-cases (raise e, s') = (s', inl (e, refl))

  -- The rest of a round of the loop, after its child context, and after the other taps.
  abbrev after_rest :
      Sink
      → Context V
      → Result (List (Sink × ContextId)) × ContextStore V D
      → Result (List (Sink × ContextId)) × ContextStore V D
  after_rest tap child o = continue o.0 (λ rest. pure ((tap, child.id) ∷ rest)) o.1

  after_first :
      (draw : Sink → ContextId) (ctx : ContextId) (tap : Sink) (taps : List Sink)
      (s : ContextStore V D) (o : Result (Context V) × ContextStore V D)
      → create_context (draw tap) (ctx ∷ []) s ≡ o
      → tap_events draw ctx (tap ∷ taps) s
        ≡ continue o.0 (λ child s. after_rest tap child (tap_events draw ctx taps s)) o.1
  unfolding tap_events
  after_first draw ctx tap taps s o h =
      ap (λ o. continue o.0 (λ child s. after_rest tap child (tap_events draw ctx taps s)) o.1) h

  TapEvents-cases :
      (draw : Sink → ContextId) (ctx : ContextId) (taps : List Sink) (s : ContextStore V D)
      → TapEvents draw ctx taps s
  unfolding tap_events
  TapEvents-cases draw ctx [] s = (s, inr ([], refl, refl, all_created))
  TapEvents-cases draw ctx (tap ∷ taps) s =
      let (s₁, first) = Result-cases (create_context (draw tap) (ctx ∷ []) s) in
      elim first [
        | inl (e, h) ↦ (s₁, inl (e, after_first draw ctx tap taps s (raise e, s₁) h, at_first h))
        | inr (child, h) ↦
            let (s₂, rest) = TapEvents-cases draw ctx taps s₁ in
            elim rest [
              | inl (e, g, fails) ↦ (
                s₂,
                inl (
                  e,
                  after_first draw ctx tap taps s (ok child, s₁) h ∙ ap (after_rest tap child) g,
                  after_one h fails,
                ),
              )
              | inr (events, g, firsts, children) ↦ (
                s₂,
                inr (
                  (tap, child.id) ∷ events,
                  after_first draw ctx tap taps s (ok child, s₁) h ∙ ap (after_rest tap child) g,
                  ap (λ l. tap ∷ l) firsts,
                  created h children,
                ),
              )
            ]
      ]

  downstream_after :
      (pipes : Pipes) (sinks : List Sink) (draw : Sink → ContextId) (event : SendEvent V)
      (b : EventBus V D) (o : Result (List (Sink × ContextId)) × ContextStore V D)
      → tap_events draw event.ctx_id (get_item event.source pipes).taps b.context_store ≡ o
      → pass_message_downstream pipes sinks draw event b
        ≡ continue o.0
            (λ events.
              pass_to_primary sinks event (get_item event.source pipes).primary
              >> pass_to_taps sinks event events)
            (record b { context_store = o.1 })
  unfolding pass_message_downstream
  downstream_after pipes sinks draw event b o h =
      ap
        (λ o.
          continue o.0
            (λ events.
              pass_to_primary sinks event (get_item event.source pipes).primary
              >> pass_to_taps sinks event events)
            (record b { context_store = o.1 }))
        h

  -- Where every target of the source has an actor: either the creation of the child context of one of
  -- the taps raises, which raises, leaves the child contexts before it and delivers nothing; or a child
  -- context is created for each tap, the primary, if there is one, gets the event in the event's
  -- context, and then each tap gets it once in its child context, in the order of the taps.
  pub pass_message_downstream_delivers :
      (pipes : Pipes) (sinks : List Sink) (draw : Sink → ContextId) (event : SendEvent V)
      (b : EventBus V D)
      → AreHandled sinks (get_item event.source pipes)
      → (b' : EventBus V D) × (((e : Exn) × (pass_message_downstream pipes sinks draw event b
              ≡ (raise e, b'))
            × FailsAt draw event.ctx_id
                (get_item event.source pipes).taps
                b.context_store
                e
                b'.context_store
            × (b'.delivered ≡ b.delivered))
          ⊎ ((events : List (Sink × ContextId)) × (pass_message_downstream pipes sinks draw event b
                ≡ (ok tt, b'))
              × Children draw event.ctx_id
                  (get_item event.source pipes).taps
                  b.context_store
                  events
                  b'.context_store
              × (b'.delivered
                  ≡ (b.delivered ++ to_primary event (get_item event.source pipes).primary)
                    ++ map (received event) events)))
  pass_message_downstream_delivers pipes sinks draw event b (taps_known, primary_known) =
      let targets = get_item event.source pipes in
      let (s', outcome) = TapEvents-cases draw event.ctx_id targets.taps b.context_store in
      let b₁ = record b { context_store = s' } in
      elim outcome [
        | inl (e, h, fails) ↦
            (b₁, inl (e, downstream_after pipes sinks draw event b (raise e, s') h, fails, refl))
        | inr (events, h, firsts, children) ↦
            let b₂ = deliver (to_primary event targets.primary) b₁ in
            let b₃ = deliver (map (received event) events) b₂ in
            (
              b₃,
              inr (
                events,
                downstream_after pipes sinks draw event b (ok events, s') h
                    ∙ ap (λ o. continue o.0 (λ done. pass_to_taps sinks event events) o.1)
                        (pass_to_primary_run sinks event targets.primary b₁ primary_known)
                    ∙ pass_to_taps_run sinks event events b₂
                        (handled_firsts sinks targets.taps events firsts taps_known),
                children,
                refl,
              ),
            )
      ]
