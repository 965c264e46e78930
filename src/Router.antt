-- ===== src/Router.antt =====
-- src/nexus/_internal/actors/neuron_router.py: the filters, and the actors that pick a neuron for each
-- input. The router's own state is kept in the context.
pub mod Laws
pub mod Fairness
pub mod Order
mod Tests
use bittensor_nexus_library.Prelude.{
  ℕ, zero, suc, ◌+◌, ◌%◌, String, Bool, true, false, not, Option, none, some, List, [], ◌∷◌, length,
  keep_if, nat_eq, string_eq, if◌then◌else◌,
}
use bittensor_nexus_library.Prelude.Int.{ℤ, pos, ltb_ℤ}
use bittensor_nexus_library.Prelude.Dict
use bittensor_nexus_library.Prelude.Sort.{sort_by}
use bittensor_nexus_library.Exceptions.{
  Exn, NexusException, Result, ok, raise, nexus, no_routable_neurons, actor_misconfigured,
  internal_state_corruption, zero_division, index_error,
}
use bittensor_nexus_library.Exceptions.Exec.{Exec, pure, throw, lift, ◌>>=◌, ◌>>◌}
use bittensor_nexus_library.ContextStore.{ContextId, DeepDiff, Context, ContextStore}
use bittensor_nexus_library.ContextStore.Store.{set_user_data}
use bittensor_nexus_library.Dsl.Nodes.{Sink}
use bittensor_nexus_library.Runtime.{Actor, Received, on_store}
use bittensor_nexus_library.Runtime.Patterns.{ReceiveEvent, Sent, handle_transform}

-- What the router reads of a `Neuron` of pylon: its hotkey, a text that is only sorted, as a number.
pub record Neurons (N : Type 0) : Type 0 where
  pub hotkey : N → ℕ
  pub validator_permit : N → Bool

module _ {N : Type 0} where
  unfoldable pub keep_all_neurons : List N → List N
  keep_all_neurons neurons = neurons

  unfoldable pub miners_only : Neurons N → List N → List N
  unfolding keep_if
  miners_only view = keep_if (λ neuron. not (view.validator_permit neuron))

  unfoldable pub validators_only : Neurons N → List N → List N
  unfolding keep_if
  validators_only view = keep_if (λ neuron. view.validator_permit neuron)

pub record Routed (I N : Type 0) : Type 0 where
  pub input : I
  pub target : N

-- The parameters of a `NeuronRouter` that the actor reads.
pub record NeuronRouter (N : Type 0) : Type 0 where
  pub id : String
  pub netuid : ℤ
  pub sink : Sink
  pub neuron_filter : List N → List N

unfoldable pub neuron_router :
    {N : Type 0} → String → ℤ → Sink → (List N → List N) → Result (NeuronRouter N)
neuron_router id netuid sink neuron_filter =
    if ltb_ℤ netuid (pos 0)
    then raise (nexus actor_misconfigured)
    else ok (record { id = id; netuid = netuid; sink = sink; neuron_filter = neuron_filter })

-- `RoundRobinRoutingState`, by its field, in Python's values: `load` is the test of its type.
pub record Values (V : Type 0) : Type 0 where
  pub store : ℕ → V
  pub is_none : V → Bool
  pub load : V → Option ℕ

-- `xs[i]`
abbrev pub get_item : {A : Type 0} → List A → ℕ → Result A
get_item [] i = raise index_error
get_item (x ∷ xs) zero = ok x
get_item (x ∷ xs) (suc i) = get_item xs i

abbrev pub is_empty : {A : Type 0} → List A → Bool
is_empty [] = true
is_empty (x ∷ xs) = false

-- `xs[i % len(xs)]`
unfoldable pub get_cyclic : {A : Type 0} → List A → ℕ → Result A
get_cyclic xs i = if is_empty xs then raise zero_division else get_item xs (i % length xs)

-- `_get_routable_neurons_from_pylon`, with pylon's answer.
unfoldable pub get_routable_neurons :
    {N : Type 0} → NeuronRouter N → Result (List N) → Result (List N)
get_routable_neurons spec (raise e) = raise e
get_routable_neurons spec (ok neurons) =
    let filtered = spec.neuron_filter neurons in
    if is_empty filtered then raise (nexus no_routable_neurons) else ok filtered

abbrev pub loaded : Option ℕ → Result (Option ℕ)
loaded none = raise (nexus internal_state_corruption)
loaded (some routed_count) = ok (some routed_count)

abbrev pub state_of : {V : Type 0} → Values V → Option V → Result (Option ℕ)
state_of values none = ok none
state_of values (some v) = if values.is_none v then ok none else loaded (values.load v)

-- `_state_from_context`
unfoldable pub state_from_context :
    {V N : Type 0} → Values V → NeuronRouter N → Context V → Result (Option ℕ)
state_from_context values spec c = state_of values (Dict.get spec.id c.user_data)

abbrev pub or_new : Option ℕ → ℕ
or_new none = 0
or_new (some routed_count) = routed_count

-- `_ordered_neurons_for_context`; `shuffle` is `random.Random(str(id)).shuffle`.
unfoldable pub ordered_neurons_for_context :
    {N : Type 0} → Neurons N → (ContextId → List N → List N) → ContextId → List N → List N
unfolding sort_by
ordered_neurons_for_context view shuffle ctx neurons = shuffle ctx (sort_by view.hotkey neurons)

module _ {V N : Type 0} (values : Values V) (view : Neurons N) where
  module _ {D : Type 0} ⦃dd : DeepDiff V D⦄ (shuffle : ContextId → List N → List N) where
    -- `RoundRobinNeuronRouterActor.select_neuron`
    unfoldable pub select_neuron : NeuronRouter N → Context V → List N → Exec (ContextStore V D) N
    unfolding state_from_context ordered_neurons_for_context get_cyclic set_user_data
    select_neuron spec c neurons =
        if is_empty neurons then throw (nexus no_routable_neurons) else (do
          let ordered = ordered_neurons_for_context view shuffle c.id neurons
          state ← lift (state_from_context values spec c)
          selected ← lift (get_cyclic ordered (or_new state))
          set_user_data c spec.id (values.store (or_new state + 1))
          pure selected)

    -- `NeuronRouterActor._transform`
    unfoldable pub transform :
        {I S : Type 0}
        → NeuronRouter N
        → Result (List N)
        → Context V
        → I
        → Exec (Actor S V D) (Option (Routed I N))
    unfolding get_routable_neurons select_neuron
    transform spec answer c payload = do
      neurons ← lift (get_routable_neurons spec answer)
      selected ← on_store (select_neuron spec c neurons)
      pure (some (record { input = payload; target = selected }))

    -- An input in a context, as the actor's loop gets it, with what pylon answers.
    unfoldable pub received :
        {I S : Type 0}
        → NeuronRouter N
        → Result (List N)
        → ContextId
        → I
        → Received S V D (Sent (Routed I N) NexusException)
    unfolding transform handle_transform
    received spec answer ctx payload = record {
      ctx_id = ctx;
      handler = some (λ c.
          handle_transform spec.sink (transform spec answer) c
            (record { ctx_id = ctx; target = spec.sink; payload = payload }));
    }

-- `NoopRouterActor._transform`, with the neuron that the factory builds.
unfoldable pub noop_transform :
    {S V I N : Type 0} → N → Context V → I → Exec S (Option (Routed I N))
noop_transform local_neuron c payload =
    pure (some (record { input = payload; target = local_neuron }))
