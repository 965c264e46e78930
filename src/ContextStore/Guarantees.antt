-- ===== src/ContextStore/Guarantees.antt =====
-- What a store of src/nexus/_internal/core/runtime/context_store.py promises its callers.
use bittensor_nexus_library.Prelude.{
  ◌≡◌, refl, String, true, false, none, some, List, [], ◌∷◌, ◌==◌, contains, count, nat_eq,
  string_eq, if◌then◌else◌, arith, ◌⊎◌, inl, inr,
}
use bittensor_nexus_library.Prelude.Dict
use bittensor_nexus_library.Prelude.Dict.{Dict, get-put}
use bittensor_nexus_library.Exceptions.{Exn, ok, raise, nexus, internal_framework}
use bittensor_nexus_library.ContextStore.{
  ContextId, DeepDiff, ParentContextSnapshot, Context, ContextStore, LogEntry, message_sent,
}
use bittensor_nexus_library.ContextStore.Store.{
  from_keys, new_context, get_context, append_message, create_context, assert_mutable,
  assert_recovery,
}
use bittensor_nexus_library.ContextStore.Recovery.{RecoveredContextStore, recover_from}
use bittensor_nexus_library.ContextStore.Durability.{live_option, Locks}
use bittensor_nexus_library.ContextStore.Durability.Writes.{IsExact, written, has_log}
use bittensor_nexus_library.ContextStore.Durability.Methods.{append_message_run, append_entry_run}
use bittensor_nexus_library.ContextStore.Durability.Rebuild.{recover_from-Tracks}
use bittensor_nexus_library.ContextStore.Durability.Creation.{Taken}
use bittensor_nexus_library.ContextStore.Durability.Enrolment.{create_context_cases}
use bittensor_nexus_library.ContextStore.History.{Reachable}
use bittensor_nexus_library.ContextStore.History.Laws.{get_context_run, Reachable-IsStore}

module _ {V D : Type 0} ⦃dd : DeepDiff V D⦄ where
  -- After every history of calls, failed calls and restarts, with deltas that are exact, recovery
  -- from the log succeeds; the recovered store has every context that is not completed as it is in
  -- memory and no other, and a lock for exactly those.
  pub recover_from-Reachable :
      (s : ContextStore V D)
      → IsExact dd
      → Reachable s
      → (r : RecoveredContextStore V D) × (recover_from s.persistence ≡ ok r)
        × (r.context_store.persistence ≡ s.persistence)
        × ((ctx : ContextId)
            → Dict.get ctx r.context_store.contexts ≡ live_option (Dict.get ctx s.contexts))
        × Locks r.context_store.contexts r.context_store.locks
  recover_from-Reachable s exact h = recover_from-Tracks s (Reachable-IsStore exact s h)

  -- After every history, with exact deltas, `create_context` with an id that no log has either raises
  -- and leaves the store as it was, or returns the context that the store then hands out under this
  -- id: it holds a snapshot of each parent, once and in order, and its payload and user data are the
  -- parent's when there is exactly one, and empty otherwise.
  pub create_context-atomic :
      (child : ContextId) (parents : List ContextId) (s : ContextStore V D)
      → IsExact dd
      → Reachable s
      → Dict.get child s.persistence.logs ≡ none
      → ((e : Exn) × (create_context child parents s ≡ (raise e, s)))
        ⊎ ((snaps : List (ParentContextSnapshot V)) × (s' : ContextStore V D) × (create_context
                child parents s
              ≡ (ok (new_context dd.null child snaps), s'))
            × (get_context child s' ≡ (ok (new_context dd.null child snaps), s'))
            × Taken s.contexts (from_keys [] parents) snaps)
  create_context-atomic child parents s exact h fresh =
      elim (create_context_cases child parents s (Reachable-IsStore exact s h) fresh) [
        | inl failed ↦ inl failed
        | inr (snaps, s', done, found, kept, sound) ↦ inr (
          snaps,
          s',
          done,
          get_context_run child (new_context dd.null child snaps) s' sound found,
          kept,
        )
      ]

  -- After every history, with exact deltas, a message to a context in memory that is not completed
  -- succeeds; the log gets one entry, the context the new payload, and no other context changes.
  pub append_message-get :
      (c : Context V) (source : String) (payload : V) (s : ContextStore V D)
      → IsExact dd
      → Reachable s
      → Dict.get c.id s.contexts ≡ some c
      → c.is_completed ≡ false
      → (log : List (LogEntry V D)) × (s' : ContextStore V D) × (append_message c source payload s
          ≡ (ok tt, s'))
        × (Dict.get c.id s.persistence.logs ≡ some log)
        × (s'.persistence
            ≡ (written
                (message_sent
                  (record { source = source; payload_delta = dd.delta c.payload payload }))
                c
                log
                s.contexts
                s).persistence)
        × ((j : ContextId)
            → Dict.get j s'.contexts ≡ (
                if c.id == j then some (record c { payload = payload }) else Dict.get j s.contexts))
  append_message-get c source payload s exact h found alive =
      let (log, logged, names, rooted) = has_log c.id c s (Reachable-IsStore exact s h) found in
      (
        log,
        _,
        append_message_run c source payload log s exact found alive logged,
        logged,
        refl,
        λ j. get-put c.id j (record c { payload = payload }) s.contexts,
      )

  -- On a delta that does not give the new payload back, `append_message` raises after it has
  -- written the entry: the log of the context is one entry longer and the context in memory is
  -- the old one.
  pub append_message-diverges :
      (c : Context V) (source : String) (payload : V) (log : List (LogEntry V D))
      (s : ContextStore V D)
      → Dict.get c.id s.contexts ≡ some c
      → c.is_completed ≡ false
      → Dict.get c.id s.persistence.logs ≡ some log
      → dd.differs (dd.apply c.payload (dd.delta c.payload payload)) payload ≡ true
      → append_message c source payload s ≡ (
        raise (nexus internal_framework),
        written
            (message_sent (record { source = source; payload_delta = dd.delta c.payload payload }))
            c
            log
            s.contexts
            s,
      )
  unfolding append_message assert_mutable assert_recovery
  append_message-diverges c source payload log s found alive logged diverges =
      let m =
        message_sent (record { source = source; payload_delta = dd.delta c.payload payload }) in
      rw (alive, append_entry_run m c log s found alive logged, diverges) refl

count-from_keys_seen :
    (x : ContextId) (seen xs : List ContextId)
    → count x (from_keys seen xs) ≡ (if contains x seen then 0 else if contains x xs then 1 else 0)
unfolding from_keys count contains
count-from_keys_seen x seen [] = ground arith
count-from_keys_seen x seen (y ∷ ys) =
    ground (arith, count-from_keys_seen x seen ys, count-from_keys_seen x (y ∷ seen) ys)

-- The parent ids that `create_context` goes through are the given ones, each once.
pub count-from_keys :
    (x : ContextId) (parents : List ContextId)
    → count x (from_keys [] parents) ≡ (if contains x parents then 1 else 0)
unfolding contains
count-from_keys x parents = count-from_keys_seen x [] parents
