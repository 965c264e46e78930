-- ===== src/ContextStore/Completion.antt =====
-- `Context.complete` of src/nexus/_internal/core/runtime/context_store.py is final.
use bittensor_nexus_library.Prelude.{
  ◌≡◌, refl, ap, ◌∙◌, subst, Bool, true, false, some, List, [], ◌∷◌, map, All, ◌==◌, beq_refl,
  nat_eq, string_eq, arith,
}
use bittensor_nexus_library.Prelude.Dict
use bittensor_nexus_library.Prelude.Dict.{get-put}
use bittensor_nexus_library.Exceptions
use bittensor_nexus_library.Exceptions.{Result, ok, raise}
use bittensor_nexus_library.Exceptions.Exec.{Exec, ◌>>=◌, >>=_run}
use bittensor_nexus_library.ContextStore.{ContextId, DeepDiff, Context, ContextStore}
use bittensor_nexus_library.ContextStore.Store
use bittensor_nexus_library.ContextStore.Durability.{IsStore}
use bittensor_nexus_library.ContextStore.Durability.Writes.{IsExact, has_log}
use bittensor_nexus_library.ContextStore.Durability.Methods.{complete_run, completed_immutable}
use bittensor_nexus_library.ContextStore.History.{
  Call, create, message, user_data, note, finish, run, run_all, Reachable, called,
}
use bittensor_nexus_library.ContextStore.History.Laws.{get_context_run, Reachable-IsStore}

-- A call of a method of this context.
abbrev pub is_on : {V : Type 0} → ContextId → Call V → Bool
is_on ctx (create child parents) = false
is_on ctx (message i source payload) = i == ctx
is_on ctx (user_data i key value) = i == ctx
is_on ctx (note i text) = i == ctx
is_on ctx (finish i) = i == ctx

module _ {V D : Type 0} ⦃dd : DeepDiff V D⦄ where
  -- A method that refuses the context in memory.
  refused :
      (ctx i : ContextId) (c : Context V) (method : Context V → Exec (ContextStore V D) (Unit {0}))
      (s : ContextStore V D)
      → IsStore s
      → Dict.get ctx s.contexts ≡ some c
      → (i == ctx) ≡ true
      → method c s ≡ (raise (Exceptions.context_completed), s)
      → (Store.get_context i >>= method) s ≡ (raise (Exceptions.context_completed), s)
  refused ctx i c method s sound found here refuses =
      let there : Dict.get i s.contexts ≡ some c =
        ap (λ j. Dict.get j s.contexts) ((nat_eq.beq_iff i ctx).0 here) ∙ found in
      >>=_run (Store.get_context i) method s (get_context_run i c s sound there) ∙ refuses

  run_refused :
      (ctx : ContextId) (c : Context V) (call : Call V) (s : ContextStore V D)
      → IsStore s
      → Dict.get ctx s.contexts ≡ some c
      → c.is_completed ≡ true
      → is_on ctx call ≡ true
      → run call s ≡ (raise (Exceptions.context_completed), s)
  unfolding run
  run_refused ctx c (create child parents) s sound found done on = absurd (ground (arith, on))
  run_refused ctx c (message i source payload) s sound found done on =
      refused ctx i c (λ c. Store.append_message c source payload) s sound found on
        (completed_immutable c s source payload done).0
  run_refused ctx c (user_data i key value) s sound found done on =
      refused ctx i c (λ c. Store.set_user_data c key value) s sound found on
        (completed_immutable c s key value done).1
  run_refused ctx c (note i text) s sound found done on =
      refused ctx i c (λ c. Store.append_user_note c text) s sound found on
        (completed_immutable c s text dd.null done).2
  run_refused ctx c (finish i) s sound found done on =
      refused ctx i c Store.complete s sound found on (completed_immutable c s "" dd.null done).3

  calls_refused :
      (ctx : ContextId) (c : Context V) (calls : List (Call V)) (s : ContextStore V D)
      → IsStore s
      → Dict.get ctx s.contexts ≡ some c
      → c.is_completed ≡ true
      → All (λ call. is_on ctx call ≡ true) calls
      → run_all calls s ≡ (map (λ call. raise (Exceptions.context_completed)) calls, s)
  unfolding run_all
  calls_refused ctx c [] s sound found done on = refl
  calls_refused ctx c (call ∷ calls) s sound found done (here, on) =
      rw (run_refused ctx c call s sound found done here) (
        ap (λ o. (raise (Exceptions.context_completed) ∷ o.0, o.1))
          (calls_refused ctx c calls s sound found done on))

  -- After every history, with exact deltas, completing a context in memory that is not completed
  -- succeeds and marks this context as completed; whatever calls of its methods follow, a second
  -- completion included, each raises, and together they leave log and memory as they were.
  pub finish-run_all :
      (ctx : ContextId) (c : Context V) (calls : List (Call V)) (s : ContextStore V D)
      → IsExact dd
      → Reachable s
      → Dict.get ctx s.contexts ≡ some c
      → c.is_completed ≡ false
      → All (λ call. is_on ctx call ≡ true) calls
      → (s' : ContextStore V D) × (run (finish ctx) s ≡ (ok tt, s'))
        × (Dict.get ctx s'.contexts ≡ some (record c { is_completed = true }))
        × (run_all calls s' ≡ (map (λ call. raise (Exceptions.context_completed)) calls, s'))
  unfolding run
  finish-run_all ctx c calls s exact reachable found alive on =
      let sound = Reachable-IsStore exact s reachable in
      let (log, logged, names, rooted) = has_log ctx c s sound found in
      let found' : Dict.get c.id s.contexts ≡ some c =
        ap (λ i. Dict.get i s.contexts) names ∙ found in
      let logged' : Dict.get c.id s.persistence.logs ≡ some log =
        ap (λ i. Dict.get i s.persistence.logs) names ∙ logged in
      let c' = record c { is_completed = true } in
      let done =
        >>=_run (Store.get_context ctx) Store.complete s (get_context_run ctx c s sound found)
        ∙ complete_run c log s found' alive logged' in
      let kept : Dict.get ctx (Dict.put c.id c' s.contexts) ≡ some c' =
        subst (λ i. Dict.get i (Dict.put c.id c' s.contexts) ≡ some c') names
          (get-put c.id c.id c' s.contexts ∙ rw (beq_refl c.id) refl) in
      let sound' =
        subst IsStore (ap (λ o. o.1) done)
          (Reachable-IsStore exact (run (finish ctx) s).1 (called (finish ctx) s tt reachable)) in
      (_, done, kept, calls_refused ctx c' calls _ sound' kept refl on)
