-- ===== src/ContextStore/History.antt =====
-- Whole histories of a store of src/nexus/_internal/core/runtime/context_store.py: what its callers
-- do in order, failed calls and restarts included.
pub mod Laws
use bittensor_nexus_library.Prelude.{◌≡◌, String, List, [], ◌∷◌, Option, none, nat_eq}
use bittensor_nexus_library.Prelude.Dict
use bittensor_nexus_library.Exceptions.{Result, ok}
use bittensor_nexus_library.Exceptions.Exec.{Exec, ◌>>=◌, ◌>>◌, pure, continue}
use bittensor_nexus_library.ContextStore.{ContextId, DeepDiff, ContextStore}
use bittensor_nexus_library.ContextStore.Store
use bittensor_nexus_library.ContextStore.Recovery.{RecoveredContextStore, recover_from}

-- The public methods of a store and of the contexts that it hands out.
pub data Call (V : Type 0) : Type 0 where
  create : ContextId → List ContextId → Call V
  message : ContextId → String → V → Call V
  user_data : ContextId → String → V → Call V
  note : ContextId → String → Call V
  finish : ContextId → Call V

module _ {V D : Type 0} ⦃dd : DeepDiff V D⦄ where
  -- A caller of a context's method gets the context from the store first.
  unfoldable pub run : Call V → Exec (ContextStore V D) (Unit {0})
  unfolding Store.create_context Store.get_context Store.append_message Store.set_user_data
      Store.append_user_note Store.complete
  run (create child parents) = do c ← Store.create_context child parents; pure tt
  run (message ctx source payload) = do
    c ← Store.get_context ctx
    Store.append_message c source payload
  run (user_data ctx key value) = do c ← Store.get_context ctx; Store.set_user_data c key value
  run (note ctx text) = do c ← Store.get_context ctx; Store.append_user_note c text
  run (finish ctx) = do c ← Store.get_context ctx; Store.complete c

  -- Calls in a row, with what each of them ends in.
  unfoldable pub run_all :
      List (Call V) → ContextStore V D → List (Result (Unit {0})) × ContextStore V D
  unfolding run
  run_all [] s = ([], s)
  run_all (call ∷ calls) s =
      let (r, s') = run call s in let (rs, s'') = run_all calls s' in (r ∷ rs, s'')

  -- A uuid7 that was not drawn before.
  abbrev pub IsFresh : Call V → ContextStore V D → Type 0
  IsFresh (create child parents) s = Dict.get child s.persistence.logs ≡ none
  IsFresh _ s = Unit

  -- The stores that a history leads to: each call is made whether or not those before it raised.
  pub data Reachable : ContextStore V D → Type 0 where
    initially : Reachable Store.empty
    called : (c : Call V) (s : ContextStore V D) → IsFresh c s → Reachable s → Reachable (run c s).1
    restarted :
        (s : ContextStore V D) (r : RecoveredContextStore V D)
        → recover_from s.persistence ≡ ok r
        → Reachable s
        → Reachable r.context_store
