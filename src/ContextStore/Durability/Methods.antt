-- ===== src/ContextStore/Durability/Methods.antt =====
-- Each method of a live context succeeds on a sound store, and its entry and its change of the
-- context in memory belong together.
use bittensor_nexus_library.Prelude.{◌≡◌, refl, String, true, false, some, List, nat_eq, string_eq}
use bittensor_nexus_library.Prelude.Dict
use bittensor_nexus_library.Prelude.Dict.{Dict}
use bittensor_nexus_library.Exceptions
use bittensor_nexus_library.Exceptions.{ok, raise}
use bittensor_nexus_library.ContextStore.{
  DeepDiff, LogEntry, LogEntryData, Context, ContextStore, message_sent, user_data_change,
  user_note, context_completed,
}
use bittensor_nexus_library.ContextStore.Persistence
use bittensor_nexus_library.ContextStore.Persistence.{absent, append_to}
use bittensor_nexus_library.ContextStore.Store.{
  or_null, assert_mutable, append_known, append_entry, append_user_note, complete, assert_recovery,
  append_message, set_user_data,
}
use bittensor_nexus_library.ContextStore.Durability.Writes.{IsExact, written}

module _ {V D : Type 0} where
  pub append_entry_run :
      (entry : LogEntryData V D) (c : Context V) (log : List (LogEntry V D)) (s : ContextStore V D)
      → Dict.get c.id s.contexts ≡ some c
      → c.is_completed ≡ false
      → Dict.get c.id s.persistence.logs ≡ some log
      → append_entry c.id entry s ≡ (ok tt, written entry c log s.contexts s)
  unfolding append_entry append_known Persistence.append_entry append_to
  append_entry_run entry c log s found alive logged = rw (found, alive, logged) refl

module _ {V D : Type 0} ⦃dd : DeepDiff V D⦄ where
  pub append_user_note_run :
      (c : Context V) (note : String) (log : List (LogEntry V D)) (s : ContextStore V D)
      → Dict.get c.id s.contexts ≡ some c
      → c.is_completed ≡ false
      → Dict.get c.id s.persistence.logs ≡ some log
      → append_user_note c note s ≡ (ok tt, written (user_note note) c log s.contexts s)
  unfolding append_user_note assert_mutable
  append_user_note_run c note log s found alive logged =
      rw (alive, append_entry_run (user_note note) c log s found alive logged) refl

  pub complete_run :
      (c : Context V) (log : List (LogEntry V D)) (s : ContextStore V D)
      → Dict.get c.id s.contexts ≡ some c
      → c.is_completed ≡ false
      → Dict.get c.id s.persistence.logs ≡ some log
      → complete c s ≡ (
        ok tt,
        written context_completed c log
            (Dict.put c.id (record c { is_completed = true }) s.contexts)
            s,
      )
  unfolding complete assert_mutable
  complete_run c log s found alive logged =
      rw (alive, append_entry_run context_completed c log s found alive logged) refl

  pub append_message_run :
      (c : Context V) (source : String) (payload : V) (log : List (LogEntry V D))
      (s : ContextStore V D)
      → IsExact dd
      → Dict.get c.id s.contexts ≡ some c
      → c.is_completed ≡ false
      → Dict.get c.id s.persistence.logs ≡ some log
      → append_message c source payload s ≡ (
        ok tt,
        written
            (message_sent (record { source = source; payload_delta = dd.delta c.payload payload }))
            c
            log
            (Dict.put c.id (record c { payload = payload }) s.contexts)
            s,
      )
  unfolding append_message assert_mutable assert_recovery
  append_message_run c source payload log s (recovers, same) found alive logged =
      let m =
        message_sent (record { source = source; payload_delta = dd.delta c.payload payload }) in
      rw (alive, append_entry_run m c log s found alive logged, recovers c.payload payload) refl

  pub set_user_data_run :
      (c : Context V) (key : String) (value : V) (log : List (LogEntry V D)) (s : ContextStore V D)
      → IsExact dd
      → Dict.get c.id s.contexts ≡ some c
      → c.is_completed ≡ false
      → Dict.get c.id s.persistence.logs ≡ some log
      → set_user_data c key value s ≡ (
        ok tt,
        written
            (user_data_change key (dd.delta (or_null dd.null (Dict.get key c.user_data)) value))
            c
            log
            (Dict.put c.id (record c { user_data = Dict.put key value c.user_data }) s.contexts)
            s,
      )
  unfolding set_user_data assert_mutable assert_recovery
  set_user_data_run c key value log s (recovers, same) found alive logged =
      let old = or_null dd.null (Dict.get key c.user_data) in
      rw
        (
          alive,
          append_entry_run (user_data_change key (dd.delta old value)) c log s found alive logged,
          recovers old value,
        )
        refl

  -- A method of a completed context raises, and changes nothing.
  pub completed_immutable :
      (c : Context V) (s : ContextStore V D) (text : String) (v : V)
      → c.is_completed ≡ true
      → (append_message c text v s ≡ (raise (Exceptions.context_completed), s))
        × (set_user_data c text v s ≡ (raise (Exceptions.context_completed), s))
        × (append_user_note c text s ≡ (raise (Exceptions.context_completed), s))
        × (complete c s ≡ (raise (Exceptions.context_completed), s))
  unfolding append_message set_user_data append_user_note complete assert_mutable
  completed_immutable c s text v done = (rw done refl, rw done refl, rw done refl, rw done refl)
