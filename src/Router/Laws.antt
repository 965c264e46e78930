-- ===== src/Router/Laws.antt =====
-- Which neuron the i-th input of a context goes to.
use bittensor_nexus_library.Prelude.{
  ℕ, zero, suc, ◌+◌, ◌<◌, ◌%◌, ◌≡◌, refl, sym, ap, ◌∙◌, subst, false, Option, some, List, [], ◌∷◌,
  ◌++◌, map, length, beq_refl, nat_eq, string_eq, arith,
}
use native.Mathlib.Nat.{mod-lt}
use bittensor_nexus_library.Prelude.Dict
use bittensor_nexus_library.Prelude.Dict.{get-put}
use bittensor_nexus_library.Exceptions.{NexusException, Result, ok, raise}
use bittensor_nexus_library.Exceptions.Exec.{Exec, continue, pure}
use bittensor_nexus_library.ContextStore.{ContextId, DeepDiff, Context, ContextStore}
use bittensor_nexus_library.ContextStore.Store.{set_user_data}
use bittensor_nexus_library.ContextStore.Durability.Writes.{IsExact}
use bittensor_nexus_library.ContextStore.Durability.Updates.{IsLiveIn, set_user_data-IsLiveIn}
use bittensor_nexus_library.Runtime.{Actor, handle_event, loop}
use bittensor_nexus_library.Runtime.Patterns.{ReceiveEvent, Sent, to_left}
use bittensor_nexus_library.Runtime.Laws.{answer, transform-answers}
use bittensor_nexus_library.Router.{
  Neurons, Routed, NeuronRouter, Values, get_item, is_empty, get_cyclic, get_routable_neurons,
  or_new, state_from_context, ordered_neurons_for_context, select_neuron, transform, received,
}

-- A stored count is read back.
abbrev pub IsHeld : {V : Type 0} → Values V → Type 0
IsHeld values =
    (n : ℕ) → (values.is_none (values.store n) ≡ false) × (values.load (values.store n) ≡ some n)

get_item_total :
    {A : Type 0} (xs : List A) (i : ℕ) → i < length xs → (x : A) × (get_item xs i ≡ ok x)
get_item_total [] i h = absurd (omega (arith, h))
get_item_total (x ∷ xs) zero h = (x, refl)
get_item_total (x ∷ xs) (suc i) h = get_item_total xs i (omega (arith, h))

pub get_cyclic_total :
    {A : Type 0} (xs : List A) (i : ℕ) → is_empty xs ≡ false → (x : A) × (get_cyclic xs i ≡ ok x)
unfolding get_cyclic
get_cyclic_total [] i h = absurd (ground (arith, h))
get_cyclic_total (x ∷ xs) i h =
    get_item_total (x ∷ xs) (i % length (x ∷ xs)) (mod-lt i (omega arith))

set_state :
    {V N : Type 0} (values : Values V) (spec : NeuronRouter N) (c : Context V) (count : ℕ)
    → IsHeld values
    → state_from_context values spec
        (record c { user_data = Dict.put spec.id (values.store count) c.user_data })
      ≡ ok (some count)
unfolding state_from_context
set_state values spec c count held =
    rw
      (
        get-put spec.id spec.id (values.store count) c.user_data,
        beq_refl spec.id,
        (held count).0,
        (held count).1,
      )
      refl

-- The result of a transform that routes to this neuron.
abbrev pub routed : {I N : Type 0} → I → Result N → Result (Option (Routed I N))
routed payload (ok neuron) = ok (some (record { input = payload; target = neuron }))
routed payload (raise e) = raise e

-- The routes of the inputs, from a count on: the neurons in turn.
abbrev pub round_robin :
    {I N : Type 0} → ContextId → List N → ℕ → List I → List (Sent (Routed I N) NexusException)
round_robin ctx ordered count [] = []
round_robin ctx ordered count (payload ∷ payloads) =
    answer ctx (routed payload (get_cyclic ordered count))
    ++ round_robin ctx ordered (count + 1) payloads

module _ {V N D : Type 0} (values : Values V) (view : Neurons N)
    (shuffle : ContextId → List N → List N) ⦃dd : DeepDiff V D⦄ where
  -- The context is live and `count` of its inputs were routed.
  abbrev pub HasRouted : NeuronRouter N → ContextId → ℕ → ContextStore V D → Type 0
  HasRouted spec ctx count s =
      (c : Context V) × IsLiveIn ctx c s
      × (o : Option ℕ) × (state_from_context values spec c ≡ ok o)
      × (or_new o ≡ count)

  select_neuron_run :
      (spec : NeuronRouter N) (c : Context V) (neurons : List N) (o : Option ℕ) (selected : N)
      (s s' : ContextStore V D)
      → is_empty neurons ≡ false
      → state_from_context values spec c ≡ ok o
      → get_cyclic (ordered_neurons_for_context view shuffle c.id neurons) (or_new o) ≡ ok selected
      → set_user_data c spec.id (values.store (or_new o + 1)) s ≡ (ok tt, s')
      → select_neuron values view shuffle spec c neurons s ≡ (ok selected, s')
  unfolding select_neuron
  select_neuron_run spec c neurons o selected s s' some_neurons held picked written =
      rw (some_neurons, held, picked, written) refl

  transform_run :
      {I S : Type 0} (spec : NeuronRouter N) (neurons : List N) (c : Context V) (payload : I)
      (selected : N) (a : Actor S V D) (s' : ContextStore V D)
      → is_empty (spec.neuron_filter neurons) ≡ false
      → select_neuron values view shuffle spec c (spec.neuron_filter neurons) a.context_store
        ≡ (ok selected, s')
      → transform values view shuffle spec (ok neurons) c payload a ≡ (
        ok (some (record { input = payload; target = selected })),
        record a { context_store = s' },
      )
  unfolding transform get_routable_neurons
  transform_run {I} {S} spec neurons c payload selected a s' some_neurons chosen =
      let finish : N → Exec (Actor S V D) (Option (Routed I N)) =
        λ n. pure (some (record { input = payload; target = n })) in
      rw some_neurons (ap (λ o. continue o.0 finish (record a { context_store = o.1 })) chosen)

  route_run :
      {I S : Type 0} (spec : NeuronRouter N) (neurons : List N) (ctx : ContextId) (count : ℕ)
      (payload : I) (selected : N) (a : Actor S V D)
      → IsExact dd
      → IsHeld values
      → HasRouted spec ctx count a.context_store
      → is_empty (spec.neuron_filter neurons) ≡ false
      → get_cyclic (ordered_neurons_for_context view shuffle ctx (spec.neuron_filter neurons)) count
        ≡ ok selected
      → (a' : Actor S V D) × (handle_event
            (received values view shuffle spec (ok neurons) ctx payload)
            a
          ≡ (to_left ctx (record { input = payload; target = selected }) ∷ [], a'))
        × HasRouted spec ctx (count + 1) a'.context_store
  unfolding received
  route_run {I} spec neurons ctx count payload selected a exact held (c, live, o, has, counted)
        some_neurons picked =
      let (s', written, live') =
        set_user_data-IsLiveIn ctx c spec.id (values.store (or_new o + 1)) a.context_store exact
          live in
      let chosen =
        select_neuron_run spec c (spec.neuron_filter neurons) o selected a.context_store s'
          some_neurons has
          (ap
              (λ i.
                get_cyclic (ordered_neurons_for_context view shuffle i (spec.neuron_filter neurons))
                  (or_new o))
              live.2
            ∙ ap
                (get_cyclic
                  (ordered_neurons_for_context view shuffle ctx (spec.neuron_filter neurons)))
                counted
            ∙ picked)
          written in
      let event : ReceiveEvent I = record { ctx_id = ctx; target = spec.sink; payload = payload } in
      (
        record a { context_store = s' },
        transform-answers spec.sink (transform values view shuffle spec (ok neurons)) c event a
              live.0 live.1 refl
            ∙ ap (λ o. (answer ctx o.0, o.1))
                (transform_run spec neurons c payload selected a s' some_neurons chosen),
        (
          record c { user_data = Dict.put spec.id (values.store (or_new o + 1)) c.user_data },
          live',
          some (or_new o + 1),
          set_state values spec c (or_new o + 1) held,
          ap (λ n. n + 1) counted,
        ),
      )

  -- In a live context of a sound store, with exact deltas and readable counts, while pylon answers
  -- with the same neurons and the filter keeps some of them: the inputs go to the neurons in the
  -- order of the context, one after the other and from the start again after the last; no input is
  -- lost, and the count of the context goes up by one with each.
  pub loop-round_robin :
      {I S : Type 0} (spec : NeuronRouter N) (neurons : List N) (ctx : ContextId) (count : ℕ)
      (payloads : List I) (a : Actor S V D)
      → IsExact dd
      → IsHeld values
      → HasRouted spec ctx count a.context_store
      → is_empty (spec.neuron_filter neurons) ≡ false
      → is_empty (ordered_neurons_for_context view shuffle ctx (spec.neuron_filter neurons)) ≡ false
      → (a' : Actor S V D) × (loop
            (map (received values view shuffle spec (ok neurons) ctx) payloads)
            a
          ≡ (
            round_robin ctx
                (ordered_neurons_for_context view shuffle ctx (spec.neuron_filter neurons))
                count
                payloads,
            a',
          ))
        × HasRouted spec ctx (count + length payloads) a'.context_store
  unfolding loop
  loop-round_robin spec neurons ctx count [] a exact held at some_neurons some_ordered =
      (a, refl, subst (λ n. HasRouted spec ctx n a.context_store) (omega arith) at)
  loop-round_robin spec neurons ctx count (payload ∷ payloads) a exact held at some_neurons
        some_ordered =
      let ordered = ordered_neurons_for_context view shuffle ctx (spec.neuron_filter neurons) in
      let (selected, picked) = get_cyclic_total ordered count some_ordered in
      let (a₁, first, at₁) =
        route_run spec neurons ctx count payload selected a exact held at some_neurons picked in
      let (a', rest, at') =
        loop-round_robin spec neurons ctx (count + 1) payloads a₁ exact held at₁ some_neurons
          some_ordered in
      (
        a',
        ap
              (λ o. (
                o.0
                    ++ (loop (map (received values view shuffle spec (ok neurons) ctx) payloads)
                        o.1).0,
                (loop (map (received values view shuffle spec (ok neurons) ctx) payloads) o.1).1,
              ))
              first
            ∙ ap (λ o. (to_left ctx (record { input = payload; target = selected }) ∷ o.0, o.1))
                rest
            ∙ ap
                (λ r. (
                  answer ctx (routed payload r) ++ round_robin ctx ordered (count + 1) payloads,
                  a',
                ))
                (sym picked),
        subst (λ n. HasRouted spec ctx n a'.context_store) (omega arith) at',
      )
