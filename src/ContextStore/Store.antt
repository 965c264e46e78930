-- ===== src/ContextStore/Store.antt =====
-- `Context` and `ContextStore` of src/nexus/_internal/core/runtime/context_store.py. A method of a
-- `Context` object is a method of the store at that context's id: the object that callers hold is
-- the one in the store. A deep copy is the value itself.
use bittensor_nexus_library.Prelude.{
  String, true, false, Option, none, some, List, [], ◌∷◌, contains, nat_eq, string_eq,
  if◌then◌else◌,
}
use bittensor_nexus_library.Prelude.Dict
use bittensor_nexus_library.Prelude.Dict.{Dict}
use bittensor_nexus_library.Exceptions.{
  nexus, internal_framework, invalid_context_id, context_completed,
}
use bittensor_nexus_library.Exceptions.Exec.{Exec, pure, throw, modify, gets, ◌>>=◌, ◌>>◌}
use bittensor_nexus_library.ContextStore.{
  ContextId, DeepDiff, LogEntryData, ParentContextSnapshot, Context, ContextStore,
  InMemoryPersistence, message_sent, user_data_change, user_note, context_data_initialized,
}
use bittensor_nexus_library.ContextStore as Types
use bittensor_nexus_library.ContextStore.Persistence

-- `d.get(key, None)`
abbrev pub or_null : {V : Type 0} → V → Option V → V
or_null null none = null
or_null null (some v) = v

abbrev pub snapshot : {V : Type 0} → Context V → ParentContextSnapshot V
snapshot c = record { ctx_id = c.id; payload = c.payload; user_data = c.user_data }

-- `dict.fromkeys(parents)`: the first of each repeated id stays.
unfoldable pub from_keys : List ContextId → List ContextId → List ContextId
from_keys seen [] = []
from_keys seen (x ∷ xs) =
    let rest = from_keys seen xs in
    let kept = x ∷ from_keys (x ∷ seen) xs in if contains x seen then rest else kept

abbrev pub initial_payload : {V : Type 0} → V → List (ParentContextSnapshot V) → V
initial_payload null (only ∷ []) = only.payload
initial_payload null _ = null

abbrev pub initial_user_data : {V : Type 0} → List (ParentContextSnapshot V) → Dict String V
initial_user_data (only ∷ []) = only.user_data
initial_user_data _ = []

abbrev pub new_context : {V : Type 0} → V → ContextId → List (ParentContextSnapshot V) → Context V
new_context null ctx parents = record {
  id = ctx;
  payload = initial_payload null parents;
  user_data = initial_user_data parents;
  parent_contexts = parents;
  is_completed = false;
}

module _ {V D : Type 0} where
  unfoldable pub empty : ContextStore V D
  unfolding Persistence.empty
  empty = record { persistence = Persistence.empty; contexts = []; locks = [] }

  abbrev pub on_persistence {ℓ} :
      {A : Type ℓ} → Exec (InMemoryPersistence V D) A → Exec (ContextStore V D) A
  on_persistence m s = let (r, p) = m s.persistence in (r, record s { persistence = p })

  -- `ThreadContextStoreLocks.register_context`
  unfoldable pub register_context : ContextId → Exec (ContextStore V D) (Unit {0})
  register_context ctx = do
    locks ← gets (λ s. s.locks)
    if contains ctx locks
        then throw (nexus internal_framework)
        else modify (λ s. record s { locks = ctx ∷ s.locks })

  -- `ThreadContextStoreLocks.lock_context`: a context that was not registered has no lock.
  unfoldable pub lock_context : ContextId → Exec (ContextStore V D) (Unit {0})
  lock_context ctx = do
    locks ← gets (λ s. s.locks)
    if contains ctx locks then pure tt else throw invalid_context_id

  -- `_lock_contexts`: the order of locking decides no outcome of one operation.
  unfoldable pub lock_contexts : List ContextId → Exec (ContextStore V D) (Unit {0})
  unfolding lock_context
  lock_contexts [] = pure tt
  lock_contexts (ctx ∷ ctxs) = do lock_context ctx; lock_contexts ctxs

  abbrev pub or_invalid : Option (Context V) → Exec (ContextStore V D) (Context V)
  or_invalid none = throw invalid_context_id
  or_invalid (some c) = pure c

  unfoldable pub get_context : ContextId → Exec (ContextStore V D) (Context V)
  unfolding lock_context
  get_context ctx = do
    lock_context ctx
    found ← gets (λ s. Dict.get ctx s.contexts)
    or_invalid found

  abbrev pub set_context : Context V → Exec (ContextStore V D) (Unit {0})
  set_context c = modify (λ s. record s { contexts = Dict.put c.id c s.contexts })

  -- `Context._assert_mutable`
  unfoldable pub assert_mutable : Context V → Exec (ContextStore V D) (Unit {0})
  assert_mutable c = if c.is_completed then throw context_completed else pure tt

  unfoldable pub append_known :
      Option (Context V) → ContextId → LogEntryData V D → Exec (ContextStore V D) (Unit {0})
  append_known none ctx entry = throw (nexus internal_framework)
  append_known (some c) ctx entry =
      if c.is_completed
      then throw context_completed
      else on_persistence (Persistence.append_entry ctx entry)

  -- `ContextStore._append_entry`
  unfoldable pub append_entry : ContextId → LogEntryData V D → Exec (ContextStore V D) (Unit {0})
  unfolding append_known
  append_entry ctx entry = do
    found ← gets (λ s. Dict.get ctx s.contexts)
    append_known found ctx entry

  unfoldable pub append_user_note : Context V → String → Exec (ContextStore V D) (Unit {0})
  unfolding assert_mutable append_entry
  append_user_note c note = do assert_mutable c; append_entry c.id (user_note note)

  unfoldable pub complete : Context V → Exec (ContextStore V D) (Unit {0})
  unfolding assert_mutable append_entry
  complete c = do
    assert_mutable c
    append_entry c.id Types.context_completed
    set_context (record c { is_completed = true })

module _ {V D : Type 0} ⦃dd : DeepDiff V D⦄ where
  -- `_assert_recovery`
  unfoldable pub assert_recovery : V → D → V → Exec (ContextStore V D) (Unit {0})
  assert_recovery old d new =
      if dd.differs (dd.apply old d) new then throw (nexus internal_framework) else pure tt

  unfoldable pub append_message : Context V → String → V → Exec (ContextStore V D) (Unit {0})
  unfolding assert_mutable append_entry assert_recovery
  append_message c source payload = do
    assert_mutable c
    let payload_delta = dd.delta c.payload payload
    append_entry c.id (message_sent (record { source = source; payload_delta = payload_delta }))
    assert_recovery c.payload payload_delta payload
    set_context (record c { payload = payload })

  unfoldable pub set_user_data : Context V → String → V → Exec (ContextStore V D) (Unit {0})
  unfolding assert_mutable append_entry assert_recovery
  set_user_data c key value = do
    assert_mutable c
    let old = or_null dd.null (Dict.get key c.user_data)
    let value_delta = dd.delta old value
    append_entry c.id (user_data_change key value_delta)
    assert_recovery old value_delta value
    set_context (record c { user_data = Dict.put key value c.user_data })

  abbrev pub snapshot_live : Option (Context V) → Exec (ContextStore V D) (ParentContextSnapshot V)
  snapshot_live none = throw invalid_context_id
  snapshot_live (some c) = if c.is_completed then throw context_completed else pure (snapshot c)

  -- The loop of `create_context` over the parents.
  unfoldable pub snapshots :
      List ContextId → Exec (ContextStore V D) (List (ParentContextSnapshot V))
  snapshots [] = pure []
  snapshots (parent ∷ parents) = do
    found ← gets (λ s. Dict.get parent s.contexts)
    first ← snapshot_live found
    rest ← snapshots parents
    pure (first ∷ rest)

  -- `if parent_contexts: self._append_entry(...)`
  unfoldable pub record_initial_data : Context V → Exec (ContextStore V D) (Unit {0})
  unfolding append_entry
  record_initial_data c = elim c.parent_contexts [
    | [] ↦ pure tt
    | first ∷ rest ↦
        append_entry c.id (context_data_initialized c.payload c.user_data c.parent_contexts)
  ]

  -- `create_context`; `child` is the uuid7 that the persistence draws.
  unfoldable pub create_context : ContextId → List ContextId → Exec (ContextStore V D) (Context V)
  unfolding from_keys lock_contexts snapshots register_context record_initial_data lock_context
  create_context child parents = do
    let parent_ids = from_keys [] parents
    lock_contexts parent_ids
    parent_contexts ← snapshots parent_ids
    new_context_id ← on_persistence (Persistence.create_context child parent_ids)
    let context = new_context dd.null new_context_id parent_contexts
    set_context context
    register_context new_context_id
    record_initial_data context
    lock_context new_context_id
    pure context
