-- ===== src/Router/Tests.antt =====
-- A router of three neurons, whose values are their hotkeys, with a shuffle that reverses.
use bittensor_nexus_library.Prelude.{
  ℕ, zero, suc, ◌≡◌, refl, true, false, none, some, List, [], ◌∷◌, ◌++◌, map, arith, string_eq,
}
use mathlib.Core.List.{Permᴰ}
use mathlib.Core.List.Permᴰ
use bittensor_nexus_library.Prelude.Dict
use bittensor_nexus_library.Prelude.Int.{pos}
use bittensor_nexus_library.Prelude.Sort.{sort_by}
use bittensor_nexus_library.Exceptions.{ok}
use bittensor_nexus_library.ContextStore.Examples.{
  numbers, numbers-IsExact, begun, begun-Reachable, context, context_begun,
}
use bittensor_nexus_library.ContextStore.History.Laws.{Reachable-IsStore}
use bittensor_nexus_library.ContextStore.Durability.Updates.{begun-IsLiveIn}
use bittensor_nexus_library.Runtime.{Actor, loop}
use bittensor_nexus_library.Router.{
  Neurons, NeuronRouter, Values, ordered_neurons_for_context, keep_all_neurons, received,
  state_from_context,
}
use bittensor_nexus_library.Router.Laws.{IsHeld, HasRouted}
use bittensor_nexus_library.Router.Order.{IsShuffle, ordered_neurons-perm}
use bittensor_nexus_library.Router.Fairness.{sent_each, loop-fair}

abbrev values : Values ℕ
values = record {
  store = λ n. suc n;
  is_none = λ v. elim v [ zero ↦ true | suc n ↦ false ];
  load = λ v. elim v [ zero ↦ none | suc n ↦ some n ];
}

values-IsHeld : IsHeld values
values-IsHeld n = (refl, refl)

abbrev view : Neurons ℕ
view = record { hotkey = λ n. n; validator_permit = λ n. false }

abbrev onto : List ℕ → List ℕ → List ℕ
onto done [] = done
onto done (x ∷ xs) = onto (x ∷ done) xs

abbrev reversed : ℕ → List ℕ → List ℕ
reversed ctx xs = onto [] xs

onto-perm : (done xs : List ℕ) → Permᴰ (xs ++ done) (onto done xs)
onto-perm done [] = Permᴰ.refl done
onto-perm done (x ∷ xs) =
    Permᴰ.trans (Permᴰ.symm (Permᴰ.middle x xs done)) (onto-perm (x ∷ done) xs)

reversed-IsShuffle : IsShuffle reversed
reversed-IsShuffle ctx xs = Permᴰ.trans (Permᴰ.symm (Permᴰ.append-nil xs)) (onto-perm [] xs)

abbrev spec : NeuronRouter ℕ
spec = record { id = "router"; netuid = pos 12; sink = 4; neuron_filter = keep_all_neurons }

abbrev neurons : List ℕ
neurons = 8 ∷ 3 ∷ 5 ∷ []

abbrev actor : Actor ℕ ℕ ℕ
actor = record { state = 0; context_store = begun }

abbrev ordered : List ℕ
ordered = ordered_neurons_for_context view reversed 7 neurons

begun-HasRouted : HasRouted values view reversed ⦃dd = numbers⦄ spec 7 0 begun
unfolding state_from_context Dict.get
begun-HasRouted = (
  context,
  begun-IsLiveIn ⦃dd = numbers⦄ 7 context begun
      (Reachable-IsStore ⦃dd = numbers⦄ numbers-IsExact begun begun-Reachable) context_begun refl,
  none,
  refl,
  refl,
)

abbrev first : List ℕ
first = 1 ∷ 2 ∷ 3 ∷ []

abbrev cycle : List ℕ
cycle = 4 ∷ 5 ∷ 6 ∷ []

loop-fair_example :
    ((loop
        (map (received values view ⦃dd = numbers⦄ reversed spec (ok neurons) 7) (first ++ cycle))
        actor).0
      ≡ (loop
          (map (received values view ⦃dd = numbers⦄ reversed spec (ok neurons) 7) first)
          actor).0
        ++ sent_each 7 cycle ordered)
    × Permᴰ neurons ordered
unfolding keep_all_neurons ordered_neurons_for_context sort_by
loop-fair_example =
    loop-fair values view reversed ⦃dd = numbers⦄ spec neurons 7 1 first cycle actor numbers-IsExact
      values-IsHeld reversed-IsShuffle begun-HasRouted refl refl refl

eight_first : ordered ≡ 8 ∷ 5 ∷ 3 ∷ []
unfolding ordered_neurons_for_context sort_by
eight_first = refl

ordered_neurons-perm_example :
    ordered ≡ ordered_neurons_for_context view reversed 7 (3 ∷ 8 ∷ 5 ∷ [])
ordered_neurons-perm_example =
    ordered_neurons-perm view reversed 7 neurons (3 ∷ 8 ∷ 5 ∷ []) (Permᴰ.swap refl refl) (
      (λ h. omega (arith, h), (λ h. omega (arith, h), tt)),
      ((λ h. omega (arith, h), tt), (tt, tt)),
    )
