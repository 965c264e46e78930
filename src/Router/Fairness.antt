-- ===== src/Router/Fairness.antt =====
-- How the inputs of a context are shared out among the neurons.
use bittensor_nexus_library.Prelude.{
  ℕ, suc, ◌+◌, ◌*◌, ◌<◌, ◌%◌, ◌≡◌, refl, sym, ap, ◌∙◌, subst, false, List, [], ◌∷◌, ◌++◌, map,
  length, length-append, append_assoc, nat_eq, string_eq, arith,
}
use mathlib.Core.List.{Permᴰ}
use bittensor_nexus_library.Exceptions.{NexusException, ok}
use bittensor_nexus_library.ContextStore.{ContextId, DeepDiff}
use bittensor_nexus_library.ContextStore.Durability.Writes.{IsExact}
use bittensor_nexus_library.Chain.Epoch.Partition.{mod_of_parts}
use bittensor_nexus_library.Runtime.{Actor, loop}
use bittensor_nexus_library.Runtime.Patterns.{Sent, to_left}
use bittensor_nexus_library.Runtime.Laws.{answer}
use bittensor_nexus_library.Router.{
  Neurons, Routed, NeuronRouter, Values, get_item, is_empty, get_cyclic,
  ordered_neurons_for_context, received,
}
use bittensor_nexus_library.Router.Laws.{IsHeld, routed, round_robin, HasRouted, loop-round_robin}
use bittensor_nexus_library.Router.Order.{IsShuffle, perm-is_empty, ordered_perm}

-- Each input to the neuron at its place.
abbrev pub sent_each :
    {I N : Type 0} → ContextId → List I → List N → List (Sent (Routed I N) NexusException)
sent_each ctx [] neurons = []
sent_each ctx (payload ∷ payloads) [] = []
sent_each ctx (payload ∷ payloads) (neuron ∷ neurons) =
    to_left ctx (record { input = payload; target = neuron }) ∷ sent_each ctx payloads neurons

get_item_middle :
    {A : Type 0} (pre suf : List A) (x : A) → get_item (pre ++ x ∷ suf) (length pre) ≡ ok x
get_item_middle [] suf x = refl
get_item_middle (y ∷ pre) suf x = get_item_middle pre suf x

filled_middle : {A : Type 0} (pre suf : List A) (x : A) → is_empty (pre ++ x ∷ suf) ≡ false
filled_middle [] suf x = refl
filled_middle (y ∷ pre) suf x = refl

get_cyclic_middle :
    {A : Type 0} (pre suf : List A) (x : A) (q i : ℕ)
    → i ≡ q * length (pre ++ x ∷ suf) + length pre
    → get_cyclic (pre ++ x ∷ suf) i ≡ ok x
unfolding get_cyclic
get_cyclic_middle pre suf x q i e =
    let below : length pre < length (pre ++ x ∷ suf) = omega (arith, length-append pre (x ∷ suf)) in
    let rest : i % length (pre ++ x ∷ suf) ≡ length pre =
      ap (λ j. j % length (pre ++ x ∷ suf)) e
      ∙ mod_of_parts q (length pre) (length (pre ++ x ∷ suf)) below in
    let filled : is_empty (pre ++ x ∷ suf) ≡ false = filled_middle pre suf x in
    rw filled (ap (get_item (pre ++ x ∷ suf)) rest ∙ get_item_middle pre suf x)

round_robin-cycle :
    {I N : Type 0} (ctx : ContextId) (pre suf : List N) (payloads : List I) (q count : ℕ)
    → count ≡ q * length (pre ++ suf) + length pre
    → length payloads ≡ length suf
    → round_robin ctx (pre ++ suf) count payloads ≡ sent_each ctx payloads suf
round_robin-cycle ctx pre [] [] q count e same = refl
round_robin-cycle ctx pre [] (payload ∷ payloads) q count e same = absurd (omega (arith, same))
round_robin-cycle ctx pre (x ∷ suf) [] q count e same = absurd (omega (arith, same))
round_robin-cycle {I} {N} ctx pre (x ∷ suf) (payload ∷ payloads) q count e same =
    ap (λ r. answer ctx (routed payload r) ++ round_robin ctx (pre ++ x ∷ suf) (count + 1) payloads)
      (get_cyclic_middle pre suf x q count e)
    ∙ ap (λ l. to_left ctx (record { input = payload; target = x }) ∷ l)
        (ap (λ l. round_robin ctx l (count + 1) payloads) (sym (append_assoc pre (x ∷ []) suf))
          ∙ round_robin-cycle ctx (pre ++ x ∷ []) suf payloads q (count + 1)
              (subst (λ l. count + 1 ≡ q * length l + length (pre ++ x ∷ []))
                (sym (append_assoc pre (x ∷ []) suf))
                (omega (arith, e, length-append pre (x ∷ []))))
              (omega (arith, same)))

round_robin-append :
    {I N : Type 0} (ctx : ContextId) (ordered : List N) (count : ℕ) (xs ys : List I)
    → round_robin ctx ordered count (xs ++ ys)
      ≡ round_robin ctx ordered count xs ++ round_robin ctx ordered (count + length xs) ys
round_robin-append ctx ordered count [] ys = ap (λ n. round_robin ctx ordered n ys) (omega arith)
round_robin-append ctx ordered count (x ∷ xs) ys =
    ap (λ l. answer ctx (routed x (get_cyclic ordered count)) ++ l)
      (round_robin-append ctx ordered (count + 1) xs ys
        ∙ ap (λ n. round_robin ctx ordered (count + 1) xs ++ round_robin ctx ordered n ys)
            (omega arith))
    ∙ sym (
        append_assoc (answer ctx (routed x (get_cyclic ordered count)))
          (round_robin ctx ordered (count + 1) xs)
          (round_robin ctx ordered (count + suc (length xs)) ys))

module _ {V N D : Type 0} (values : Values V) (view : Neurons N)
    (shuffle : ContextId → List N → List N) ⦃dd : DeepDiff V D⦄ where
  -- In a live context of a sound store that has no routes yet, with exact deltas, readable counts and
  -- a shuffle that permutes, while pylon answers with the same neurons and the filter keeps some of
  -- them: each further round of as many inputs as there are routable neurons sends one of them to each
  -- of these neurons, in the same order in every round.
  pub loop-fair :
      {I S : Type 0} (spec : NeuronRouter N) (neurons : List N) (ctx : ContextId) (q : ℕ)
      (first cycle : List I) (a : Actor S V D)
      → IsExact dd
      → IsHeld values
      → IsShuffle shuffle
      → HasRouted values view shuffle spec ctx 0 a.context_store
      → is_empty (spec.neuron_filter neurons) ≡ false
      → length first
        ≡ q * length (ordered_neurons_for_context view shuffle ctx (spec.neuron_filter neurons))
      → length cycle
        ≡ length (ordered_neurons_for_context view shuffle ctx (spec.neuron_filter neurons))
      → ((loop (map (received values view shuffle spec (ok neurons) ctx) (first ++ cycle)) a).0
          ≡ (loop (map (received values view shuffle spec (ok neurons) ctx) first) a).0
            ++ sent_each ctx cycle
                (ordered_neurons_for_context view shuffle ctx (spec.neuron_filter neurons)))
        × Permᴰ
            (spec.neuron_filter neurons)
            (ordered_neurons_for_context view shuffle ctx (spec.neuron_filter neurons))
  loop-fair spec neurons ctx q first cycle a exact held permutes at some_neurons full same =
      let ordered = ordered_neurons_for_context view shuffle ctx (spec.neuron_filter neurons) in
      let perm = ordered_perm view shuffle ctx (spec.neuron_filter neurons) permutes in
      let some_ordered =
        sym (perm-is_empty (spec.neuron_filter neurons) ordered perm) ∙ some_neurons in
      let (a₁, done₁, at₁) =
        loop-round_robin values view shuffle spec neurons ctx 0 first a exact held at some_neurons
          some_ordered in
      let (a₂, done₂, at₂) =
        loop-round_robin values view shuffle spec neurons ctx 0 (first ++ cycle) a exact held at
          some_neurons some_ordered in
      (
        ap (λ o. o.0) done₂
            ∙ round_robin-append ctx ordered 0 first cycle
            ∙ ap (λ l. round_robin ctx ordered 0 first ++ l)
                (round_robin-cycle ctx [] ordered cycle q (0 + length first) (omega (arith, full))
                  same)
            ∙ ap (λ l. l ++ sent_each ctx cycle ordered) (sym (ap (λ o. o.0) done₁)),
        perm,
      )
