-- ===== src/ContextStore/Durability/Writes.antt =====
-- The methods of a `Context` of src/nexus/_internal/core/runtime/context_store.py that write an
-- entry: what each leaves behind, and the invariant.
use bittensor_nexus_library.Prelude.{
  ◌≡◌, refl, sym, ◌∙◌, subst, String, true, false, none, some, List, [], ◌∷◌, ◌++◌, nat_eq,
  string_eq,
}
use bittensor_nexus_library.Prelude.Dict
use bittensor_nexus_library.Prelude.Dict.{Dict, get-put}
use bittensor_nexus_library.ContextStore.{
  ContextId, DeepDiff, LogEntry, LogEntryData, Context, ContextStore, message_sent,
  user_data_change, user_note, context_data_initialized, child_context_created, context_completed,
}
use bittensor_nexus_library.ContextStore.Persistence.{absent, next_entry, set_log}
use bittensor_nexus_library.ContextStore.Store.{or_null}
use bittensor_nexus_library.ContextStore.Recovery.Local.{local_entry}
use bittensor_nexus_library.ContextStore.Durability.{Tracked, IsStore}
use bittensor_nexus_library.ContextStore.Durability.Append.{Steps, append-Tracks}
use bittensor_nexus_library.ContextStore.Durability.Sets.{Sets, Locks-set}

-- What deepdiff documents of a delta: added to the old value it gives the new one, and only equal
-- values have no difference.
abbrev pub IsExact : {V D : Type 0} → DeepDiff V D → Type 0
IsExact {V} dd =
    ((a b : V) → dd.differs (dd.apply a (dd.delta a b)) b ≡ false)
    × ((a b : V) → dd.differs a b ≡ false → a ≡ b)

module _ {V D : Type 0} where
  -- The state after an entry in the log of `c`, with `c'` in its place.
  abbrev pub written :
      LogEntryData V D
      → Context V
      → List (LogEntry V D)
      → Dict ContextId (Context V)
      → ContextStore V D
      → ContextStore V D
  written entry c log contexts s = record s {
    persistence = set_log c.id (log ++ next_entry c.id entry log ∷ []) s.persistence;
    contexts = contexts;
  }

pub exact_apply :
    {V D : Type 0} (dd : DeepDiff V D) → IsExact dd → (a b : V) → dd.apply a (dd.delta a b) ≡ b
exact_apply dd (recovers, same) a b = same (dd.apply a (dd.delta a b)) b (recovers a b)

module _ {V D : Type 0} ⦃dd : DeepDiff V D⦄ where
  pub initialized-Steps :
      (ctx : ContextId) (c c' : Context V)
      → c'.is_completed ≡ false
      → record c {
        payload = c'.payload;
        user_data = c'.user_data;
        parent_contexts = c'.parent_contexts;
      }
        ≡ c'
      → c.is_completed ≡ false
      → Steps {D = D} ctx (context_data_initialized c'.payload c'.user_data c'.parent_contexts) c c'
  unfolding local_entry
  initialized-Steps ctx c c' alive same alive₀ l here uncompleted = (
    record l { context = some c' },
    rw (here, same) refl,
    rw alive refl,
    uncompleted ∙ sym alive,
    refl,
  )

  pub message-Steps :
      (ctx : ContextId) (c : Context V) (source : String) (payload : V)
      → IsExact dd
      → c.is_completed ≡ false
      → Steps {D = D} ctx
          (message_sent (record { source = source; payload_delta = dd.delta c.payload payload }))
          c
          (record c { payload = payload })
  unfolding local_entry
  message-Steps ctx c source payload exact alive l here uncompleted = (
    record l {
      context = some (record c { payload = payload });
      last_message = some (record { source = source; payload_delta = dd.delta c.payload payload });
    },
    rw (here, exact_apply dd exact c.payload payload) refl,
    rw alive refl,
    uncompleted ∙ sym alive,
    refl,
  )

  pub user_data-Steps :
      (ctx : ContextId) (c : Context V) (key : String) (value : V)
      → IsExact dd
      → c.is_completed ≡ false
      → Steps {D = D} ctx
          (user_data_change key (dd.delta (or_null dd.null (Dict.get key c.user_data)) value))
          c
          (record c { user_data = Dict.put key value c.user_data })
  unfolding local_entry
  user_data-Steps ctx c key value exact alive l here uncompleted = (
    record l { context = some (record c { user_data = Dict.put key value c.user_data }) },
    rw (here, exact_apply dd exact (or_null dd.null (Dict.get key c.user_data)) value) refl,
    rw alive refl,
    uncompleted ∙ sym alive,
    refl,
  )

  pub note-Steps :
      (ctx : ContextId) (c : Context V) (note : String)
      → c.is_completed ≡ false
      → Steps {D = D} ctx (user_note note) c c
  unfolding local_entry
  note-Steps ctx c note alive l here uncompleted =
      (l, refl, here ∙ rw alive refl, uncompleted ∙ sym alive, refl)

  pub child-Steps :
      (ctx : ContextId) (c : Context V) (child : ContextId)
      → c.is_completed ≡ false
      → Steps {D = D} ctx (child_context_created child) c c
  unfolding local_entry
  child-Steps ctx c child alive l here uncompleted =
      (l, refl, here ∙ rw alive refl, uncompleted ∙ sym alive, refl)

  pub completed-Steps :
      (ctx : ContextId) (c : Context V)
      → Steps {D = D} ctx context_completed c (record c { is_completed = true })
  unfolding local_entry
  completed-Steps ctx c l here uncompleted = (
    record l { context = none; last_message = none; completed = true },
    rw here refl,
    refl,
    refl,
    refl,
  )

  pub written-IsStore :
      (entry : LogEntryData V D) (c c' : Context V) (log : List (LogEntry V D))
      (contexts' : Dict ContextId (Context V)) (s : ContextStore V D)
      → IsStore s
      → Dict.get c.id s.contexts ≡ some c
      → Dict.get c.id s.persistence.logs ≡ some log
      → c.is_completed ≡ false
      → Steps c.id entry c c'
      → c'.id ≡ c.id
      → Sets c.id c' s.contexts contexts'
      → IsStore (written entry c log contexts' s)
  written-IsStore entry c c' log contexts' s (tracks, locks) found logged alive steps same_id sets =
      (
        append-Tracks c.id entry c c' log s.contexts contexts' s.persistence
            (set_log c.id (log ++ next_entry c.id entry log ∷ []) s.persistence) tracks found logged
            alive steps same_id sets refl (λ j. refl),
        Locks-set c c' s.contexts contexts' s.locks locks found sets,
      )

  -- A live context of a sound store has a log, and its id is its key.
  pub has_log :
      (ctx : ContextId) (c : Context V) (s : ContextStore V D)
      → IsStore s
      → Dict.get ctx s.contexts ≡ some c
      → (log : List (LogEntry V D)) × (Dict.get ctx s.persistence.logs ≡ some log)
        × (c.id ≡ ctx)
        × (absent (Dict.get ctx s.persistence.context_tree) ≡ false)
  has_log ctx c s ((d, tracked), locks) found =
      let (log, logged, rooted, own, names, replays) =
        subst (λ o. Tracked ctx o s.persistence) found (tracked ctx) in
      (log, logged, names, rooted)
