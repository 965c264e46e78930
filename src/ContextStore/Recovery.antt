-- ===== src/ContextStore/Recovery.antt =====
-- `ContextStore.recover_from` of src/nexus/_internal/core/runtime/context_store.py.
pub mod Local
pub mod Entries
use bittensor_nexus_library.Prelude.{
  ℕ, suc, ◌+◌, String, Bool, true, false, not, Option, none, some, List, [], ◌∷◌, ◌||◌, contains,
  ◌==◌, nat_eq, string_eq, if◌then◌else◌,
}
use bittensor_nexus_library.Prelude.Dict
use bittensor_nexus_library.Prelude.Dict.{Dict}
use bittensor_nexus_library.Exceptions.{
  Result, ok, raise, nexus, internal_framework, internal_state_corruption, ◌>>=◌, ◌>>◌,
}
use bittensor_nexus_library.ContextStore.{
  ContextId, StepIdx, DeepDiff, LogEntry, LogEntryData, MessageSent, Context, ContextStore,
  InMemoryPersistence, message_sent, user_data_change, user_note, context_data_initialized,
  child_context_created, context_created, context_completed,
}
use bittensor_nexus_library.ContextStore.Persistence
use bittensor_nexus_library.ContextStore.Store.{or_null}

-- The local variables of the loop.
pub record Recovering (V D : Type 0) : Type 0 where
  pub contexts : Dict ContextId (Context V)
  pub last_messages : Dict ContextId (MessageSent D)
  pub completed_contexts : List ContextId
  pub steps : Dict ContextId StepIdx

pub record RecoveredContextStore (V D : Type 0) : Type 0 where
  pub context_store : ContextStore V D
  pub last_messages : Dict ContextId (MessageSent D)

abbrev pub corrupted {ℓ} : {A : Type ℓ} → Result A
corrupted = raise (nexus internal_state_corruption)

-- The check of the step index against the previous one of the context.
unfoldable pub follows : Option StepIdx → StepIdx → Bool
follows none step = step == 0
follows (some previous) step = step == previous + 1

abbrev pub or_corrupted : {V : Type 0} → Option (Context V) → Result (Context V)
or_corrupted none = corrupted
or_corrupted (some c) = ok c

abbrev pub blank : {V : Type 0} → V → ContextId → Context V
blank null ctx = record {
  id = ctx;
  payload = null;
  user_data = [];
  parent_contexts = [];
  is_completed = false;
}

module _ {V D : Type 0} where
  unfoldable pub start : Recovering V D
  start = record { contexts = []; last_messages = []; completed_contexts = []; steps = [] }

  abbrev pub put_context : Context V → ContextId → Recovering V D → Recovering V D
  put_context c ctx r = record r { contexts = Dict.put ctx c r.contexts }

module _ {V D : Type 0} ⦃dd : DeepDiff V D⦄ where
  -- `if ctx in contexts: raise`
  unfoldable pub create_blank :
      Option (Context V) → ContextId → Recovering V D → Result (Recovering V D)
  create_blank none ctx r = ok (put_context (blank dd.null ctx) ctx r)
  create_blank (some c) ctx r = corrupted

  abbrev pub add_user_data : String → D → Context V → Context V
  add_user_data key d c = record c {
    user_data = Dict.put key (dd.apply (or_null dd.null (Dict.get key c.user_data)) d) c.user_data;
  }

  -- The `match` of the loop.
  unfoldable pub replay_entry :
      ContextId → LogEntryData V D → Recovering V D → Result (Recovering V D)
  unfolding create_blank
  replay_entry ctx (context_created parents) r = create_blank (Dict.get ctx r.contexts) ctx r
  replay_entry ctx (context_data_initialized payload user_data parents) r = do
    c ← or_corrupted (Dict.get ctx r.contexts)
    ok (
        put_context
          (record c { payload = payload; user_data = user_data; parent_contexts = parents }) ctx r)
  replay_entry ctx (child_context_created child) r = ok r
  replay_entry ctx (message_sent message) r = do
    c ← or_corrupted (Dict.get ctx r.contexts)
    let r' = put_context (record c { payload = dd.apply c.payload message.payload_delta }) ctx r
    ok (record r' { last_messages = Dict.put ctx message r.last_messages })
  replay_entry ctx (user_note note) r = ok r
  replay_entry ctx (user_data_change key value_delta) r = do
    c ← or_corrupted (Dict.get ctx r.contexts)
    ok (put_context (add_user_data key value_delta c) ctx r)
  replay_entry ctx context_completed r = do
    c ← or_corrupted (Dict.get ctx r.contexts)
    ok (record r {
      contexts = Dict.remove ctx r.contexts;
      completed_contexts = ctx ∷ r.completed_contexts;
      last_messages = Dict.remove ctx r.last_messages;
    })

  -- One round of the loop.
  unfoldable pub recover_entry : LogEntry V D → Recovering V D → Result (Recovering V D)
  unfolding follows replay_entry
  recover_entry e r =
      let r' = record r { steps = Dict.put e.ctx e.step_idx r.steps } in
      if not (follows (Dict.get e.ctx r.steps) e.step_idx)
      then corrupted
      else if contains e.ctx r.completed_contexts
      then corrupted
      else replay_entry e.ctx e.entry r'

  unfoldable pub recover_entries : List (LogEntry V D) → Recovering V D → Result (Recovering V D)
  unfolding recover_entry
  recover_entries [] r = ok r
  recover_entries (e ∷ es) r = do r' ← recover_entry e r; recover_entries es r'

  -- The new store has a lock for each context that is not completed.
  unfoldable pub recover_from : InMemoryPersistence V D → Result (RecoveredContextStore V D)
  unfolding start recover_entries
  recover_from p = do
    r ← recover_entries (Persistence.log_entries p) start
    ok (record {
      context_store = record {
        persistence = p;
        contexts = r.contexts;
        locks = Dict.keys r.contexts;
      };
      last_messages = r.last_messages;
    })
