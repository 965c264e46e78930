-- ===== src/ContextStore/Tests.antt =====
-- The guarantees of a store, at a short history.
use bittensor_nexus_library.Prelude.{
  ℕ, ◌≡◌, refl, true, not, ◌==◌, nat_eq, if◌then◌else◌, none, some, List, [], ◌∷◌, ◌⊎◌, contains,
  map,
}
use bittensor_nexus_library.Prelude.Dict
use bittensor_nexus_library.Exceptions
use bittensor_nexus_library.Exceptions.{Exn, ok, raise, nexus, internal_framework}
use bittensor_nexus_library.ContextStore.{
  ContextId, DeepDiff, ContextStore, LogEntry, ParentContextSnapshot, message_sent,
}
use bittensor_nexus_library.ContextStore.Store
use bittensor_nexus_library.ContextStore.Store.{from_keys, new_context}
use bittensor_nexus_library.ContextStore.Persistence
use bittensor_nexus_library.ContextStore.Persistence.{first_entry}
use bittensor_nexus_library.ContextStore.Recovery.{RecoveredContextStore, recover_from}
use bittensor_nexus_library.ContextStore.Durability.{live_option, Locks}
use bittensor_nexus_library.ContextStore.Durability.Creation.{Taken}
use bittensor_nexus_library.ContextStore.Durability.Writes.{written}
use bittensor_nexus_library.ContextStore.History.{
  Call, message, user_data, note, finish, run, run_all,
}
use bittensor_nexus_library.ContextStore.Examples.{
  numbers, numbers-IsExact, begun, messaged, begun-Reachable, messaged-Reachable, context,
  context_begun,
}
use bittensor_nexus_library.ContextStore.Completion.{finish-run_all}
use bittensor_nexus_library.ContextStore.Guarantees.{
  recover_from-Reachable, create_context-atomic, append_message-get, append_message-diverges,
}

recover_from-Reachable_example :
    (r : RecoveredContextStore ℕ ℕ) × (recover_from ⦃dd = numbers⦄ messaged.persistence ≡ ok r)
    × (r.context_store.persistence ≡ messaged.persistence)
    × ((ctx : ContextId)
        → Dict.get ctx r.context_store.contexts ≡ live_option (Dict.get ctx messaged.contexts))
    × Locks r.context_store.contexts r.context_store.locks
recover_from-Reachable_example =
    recover_from-Reachable ⦃dd = numbers⦄ messaged numbers-IsExact messaged-Reachable

fresh_id : Dict.get 8 begun.persistence.logs ≡ none
unfolding run Store.create_context Persistence.create_context Dict.get Dict.put Store.empty
    Persistence.empty contains
fresh_id = refl

create_context-atomic_example :
    ((e : Exn) × (Store.create_context ⦃dd = numbers⦄ 8 (7 ∷ []) begun ≡ (raise e, begun)))
    ⊎ ((snaps : List (ParentContextSnapshot ℕ)) × (s' : ContextStore ℕ ℕ) × (Store.create_context
            ⦃dd = numbers⦄ 8
            (7 ∷ [])
            begun
          ≡ (ok (new_context 0 8 snaps), s'))
        × (Store.get_context 8 s' ≡ (ok (new_context 0 8 snaps), s'))
        × Taken begun.contexts (from_keys [] (7 ∷ [])) snaps)
create_context-atomic_example =
    create_context-atomic ⦃dd = numbers⦄ 8 (7 ∷ []) begun numbers-IsExact begun-Reachable fresh_id

append_message-get_example :
    (log : List (LogEntry ℕ ℕ)) × (s' : ContextStore ℕ ℕ) × (Store.append_message ⦃dd = numbers⦄
        context "input" 5 begun
      ≡ (ok tt, s'))
    × (Dict.get 7 begun.persistence.logs ≡ some log)
    × (s'.persistence
        ≡ (written
            (message_sent (record { source = "input"; payload_delta = 5 }))
            context
            log
            begun.contexts
            begun).persistence)
    × ((j : ContextId)
        → Dict.get j s'.contexts
          ≡ (if 7 == j then some (record context { payload = 5 }) else Dict.get j begun.contexts))
append_message-get_example =
    append_message-get ⦃dd = numbers⦄ context "input" 5 begun numbers-IsExact begun-Reachable
      context_begun refl

-- A delta that is lost.
abbrev lossy : DeepDiff ℕ ℕ
lossy = record { null = 0; delta = λ a b. 0; apply = λ a d. a; differs = λ a b. not (a == b) }

abbrev one_context : ContextStore ℕ ℕ
one_context = record {
  persistence = record { logs = (7, first_entry 7 [] ∷ []) ∷ []; context_tree = (7, []) ∷ [] };
  contexts = (7, context) ∷ [];
  locks = 7 ∷ [];
}

context_there : Dict.get 7 one_context.contexts ≡ some context
unfolding Dict.get
context_there = refl

log_there : Dict.get 7 one_context.persistence.logs ≡ some (first_entry 7 [] ∷ [])
unfolding Dict.get
log_there = refl

append_message-diverges_example :
    Store.append_message ⦃dd = lossy⦄ context "input" 5 one_context ≡ (
      raise (nexus internal_framework),
      written
          (message_sent (record { source = "input"; payload_delta = 0 }))
          context
          (first_entry 7 [] ∷ [])
          one_context.contexts
          one_context,
    )
append_message-diverges_example =
    append_message-diverges ⦃dd = lossy⦄ context "input" 5 (first_entry 7 [] ∷ []) one_context
      context_there refl log_there refl

abbrev late_calls : List (Call ℕ)
late_calls = message 7 "input" 5 ∷ user_data 7 "key" 3 ∷ note 7 "late" ∷ finish 7 ∷ []

finish-run_all_example :
    (s' : ContextStore ℕ ℕ) × (run ⦃dd = numbers⦄ (finish 7) begun ≡ (ok tt, s'))
    × (Dict.get 7 s'.contexts ≡ some (record context { is_completed = true }))
    × (run_all ⦃dd = numbers⦄ late_calls s'
        ≡ (map (λ call. raise (Exceptions.context_completed)) late_calls, s'))
finish-run_all_example =
    finish-run_all ⦃dd = numbers⦄ 7 context late_calls begun numbers-IsExact begun-Reachable
      context_begun refl (refl, (refl, (refl, (refl, tt))))
