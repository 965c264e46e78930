-- ===== src/ContextStore/History/Laws.antt =====
-- What holds of a store after every history.
use bittensor_nexus_library.Prelude.{
  ◌≡◌, refl, sym, ap, ◌∙◌, subst, true, false, not, Option, none, some, List, contains, nat_eq,
  string_eq, arith, Bool-cases, Option-cases, inl, inr,
}
use bittensor_nexus_library.Prelude.Dict
use bittensor_nexus_library.Prelude.Dict.{Dict}
use bittensor_nexus_library.Exceptions
use bittensor_nexus_library.Exceptions.{Exn, ok, raise}
use bittensor_nexus_library.Exceptions.Exec.{Exec, ◌>>=◌}
use bittensor_nexus_library.ContextStore.{
  ContextId, DeepDiff, Context, ContextStore, LogEntry, InMemoryPersistence, user_note,
  context_completed,
}
use bittensor_nexus_library.ContextStore.Persistence.{absent}
use bittensor_nexus_library.ContextStore.Persistence
use bittensor_nexus_library.ContextStore.Store
use bittensor_nexus_library.ContextStore.Recovery.{RecoveredContextStore, recover_from}
use bittensor_nexus_library.ContextStore.Durability.{live, live_option, Replays, Tracked, IsStore}
use bittensor_nexus_library.ContextStore.Durability.Sets.{Sets-put, Sets-same}
use bittensor_nexus_library.ContextStore.Durability.Writes.{
  IsExact, written-IsStore, has_log, message-Steps, user_data-Steps, note-Steps, completed-Steps,
}
use bittensor_nexus_library.ContextStore.Durability.Methods.{
  append_message_run, set_user_data_run, append_user_note_run, complete_run, completed_immutable,
}
use bittensor_nexus_library.ContextStore.Durability.Rebuild.{recover_from-Tracks}
use bittensor_nexus_library.ContextStore.Durability.Enrolment.{create_context_cases}
use bittensor_nexus_library.ContextStore.History.{
  Call, create, message, user_data, note, finish, run, IsFresh, Reachable, initially, called,
  restarted,
}

live_done : {V : Type 0} (c : Context V) → c.is_completed ≡ true → live c ≡ none
live_done c e = rw e refl

live_alive : {V : Type 0} (c : Context V) → c.is_completed ≡ false → live c ≡ some c
live_alive c e = rw e refl

empty-IsStore : {V D : Type 0} (dd : DeepDiff V D) → IsStore {V = V} {D = D} ⦃dd = dd⦄ Store.empty
unfolding Store.empty Persistence.empty Dict.get contains
empty-IsStore dd = ((tt, λ ctx. inl refl), λ ctx. refl)

module _ {V D : Type 0} ⦃dd : DeepDiff V D⦄ where
  pub get_context_run :
      (ctx : ContextId) (c : Context V) (s : ContextStore V D)
      → IsStore s
      → Dict.get ctx s.contexts ≡ some c
      → Store.get_context ctx s ≡ (ok c, s)
  unfolding Store.get_context Store.lock_context
  get_context_run ctx c s sound found =
      let locked : contains ctx s.locks ≡ true = sound.1 ctx ∙ ap (λ o. not (absent o)) found in
      rw (locked, found) refl

  pub get_context_unknown :
      (ctx : ContextId) (s : ContextStore V D)
      → IsStore s
      → Dict.get ctx s.contexts ≡ none
      → Store.get_context ctx s ≡ (raise (Exceptions.invalid_context_id), s)
  unfolding Store.get_context Store.lock_context
  get_context_unknown ctx s sound missing =
      let unlocked : contains ctx s.locks ≡ false =
        sound.1 ctx ∙ ap (λ o. not (absent o)) missing in
      rw unlocked refl

  -- A method that a caller calls on the context it got.
  at_context :
      (ctx : ContextId) (method : Context V → Exec (ContextStore V D) (Unit {0}))
      (s : ContextStore V D)
      → IsStore s
      → ((c : Context V)
          → c.is_completed ≡ true
          → method c s ≡ (raise (Exceptions.context_completed), s))
      → ((c : Context V) (log : List (LogEntry V D))
          → Dict.get c.id s.contexts ≡ some c
          → c.is_completed ≡ false
          → Dict.get c.id s.persistence.logs ≡ some log
          → IsStore (method c s).1)
      → IsStore ((Store.get_context ctx >>= method) s).1
  at_context ctx method s sound done alive = elim (Option-cases (Dict.get ctx s.contexts)) [
    | inl missing ↦ rw (get_context_unknown ctx s sound missing) sound
    | inr (c, found) ↦ rw (get_context_run ctx c s sound found) (elim (Bool-cases c.is_completed) [
      | inl e ↦ rw (done c e) sound
      | inr e ↦
          let (log, logged, names, rooted) = has_log ctx c s sound found in
          alive c log (ap (λ i. Dict.get i s.contexts) names ∙ found) e
            (ap (λ i. Dict.get i s.persistence.logs) names ∙ logged)
    ])
  ]

  -- Every call keeps the invariant, whether it raises or not.
  run-IsStore :
      (call : Call V) (s : ContextStore V D)
      → IsExact dd
      → IsFresh call s
      → IsStore s
      → IsStore (run call s).1
  unfolding run
  run-IsStore (create child parents) s exact fresh sound =
      elim (create_context_cases child parents s sound fresh) [
        | inl (e, h) ↦ rw h sound
        | inr (snaps, s', h, found, kept, sound') ↦ rw h sound'
      ]
  run-IsStore (message ctx source payload) s exact fresh sound =
      at_context ctx (λ c. Store.append_message c source payload) s sound
        (λ c e. (completed_immutable c s source payload e).0)
        λ c log found alive logged.
          let c' = record c { payload = payload } in
          rw (append_message_run c source payload log s exact found alive logged) (
            written-IsStore _ c c' log (Dict.put c.id c' s.contexts) s sound found logged alive
              (message-Steps c.id c source payload exact alive) refl (Sets-put c c' s.contexts))
  run-IsStore (user_data ctx key value) s exact fresh sound =
      at_context ctx (λ c. Store.set_user_data c key value) s sound
        (λ c e. (completed_immutable c s key value e).1)
        λ c log found alive logged.
          let c' = record c { user_data = Dict.put key value c.user_data } in
          rw (set_user_data_run c key value log s exact found alive logged) (
            written-IsStore _ c c' log (Dict.put c.id c' s.contexts) s sound found logged alive
              (user_data-Steps c.id c key value exact alive) refl (Sets-put c c' s.contexts))
  run-IsStore (note ctx text) s exact fresh sound =
      at_context ctx (λ c. Store.append_user_note c text) s sound
        (λ c e. (completed_immutable c s text dd.null e).2)
        λ c log found alive logged. rw (append_user_note_run c text log s found alive logged) (
          written-IsStore (user_note text) c c log s.contexts s sound found logged alive
            (note-Steps c.id c text alive) refl (Sets-same c s.contexts found))
  run-IsStore (finish ctx) s exact fresh sound =
      at_context ctx Store.complete s sound (λ c e. (completed_immutable c s "" dd.null e).3)
        λ c log found alive logged.
          let c' = record c { is_completed = true } in
          rw (complete_run c log s found alive logged) (
            written-IsStore context_completed c c' log (Dict.put c.id c' s.contexts) s sound found
              logged alive (completed-Steps c.id c) refl (Sets-put c c' s.contexts))

  live-Tracked :
      (ctx : ContextId) (o : Option (Context V)) (p : InMemoryPersistence V D)
      → Tracked ctx o p
      → Tracked ctx (live_option o) p
  live-Tracked ctx none p t = t
  live-Tracked ctx (some c) p (log, logged, rooted, own, names, replays) =
      elim (Bool-cases c.is_completed) [
        | inl e ↦
            subst (λ o. Tracked ctx o p) (sym (live_done c e))
              (inr (
                log,
                logged,
                own,
                subst (λ o. Replays o true log) (live_done c e)
                    (subst (λ b. Replays (live c) b log) e replays),
              ))
        | inr e ↦
            subst (λ o. Tracked ctx o p) (sym (live_alive c e))
              (log, logged, rooted, own, names, replays)
      ]

  -- A restart keeps the invariant.
  restart-IsStore :
      (s : ContextStore V D) (r : RecoveredContextStore V D)
      → recover_from s.persistence ≡ ok r
      → IsStore s
      → IsStore r.context_store
  restart-IsStore s r done sound =
      let (r', done', same, contexts, locks) = recover_from-Tracks s sound in
      let eq : r' ≡ r = ground (arith, done, done') in
      subst (λ r. IsStore r.context_store) eq
        (
          (
            rw same (sound.0.0),
            λ ctx.
                rw (same, contexts ctx)
                  (live-Tracked ctx (Dict.get ctx s.contexts) s.persistence (sound.0.1 ctx)),
          ),
          locks,
        )

  pub Reachable-IsStore : IsExact dd → (s : ContextStore V D) → Reachable s → IsStore s
  Reachable-IsStore exact _ initially = empty-IsStore dd
  Reachable-IsStore exact _ (called c s fresh before) =
      run-IsStore c s exact fresh (Reachable-IsStore exact s before)
  Reachable-IsStore exact _ (restarted s r done before) =
      restart-IsStore s r done (Reachable-IsStore exact s before)
