-- ===== src/ContextStore/Durability/Updates.antt =====
-- `Context.set_user_data` of src/nexus/_internal/core/runtime/context_store.py, as its callers see it.
use bittensor_nexus_library.Prelude.{
  ◌≡◌, refl, ap, ◌∙◌, subst, String, false, some, beq_refl, nat_eq, string_eq,
}
use bittensor_nexus_library.Prelude.Dict
use bittensor_nexus_library.Prelude.Dict.{get-put}
use bittensor_nexus_library.Exceptions.{ok}
use bittensor_nexus_library.ContextStore.{ContextId, DeepDiff, Context, ContextStore}
use bittensor_nexus_library.ContextStore.Store.{set_user_data, append_user_note}
use bittensor_nexus_library.ContextStore.Durability.{IsStore}
use bittensor_nexus_library.ContextStore.Durability.Sets.{Sets-put, Sets-same}
use bittensor_nexus_library.ContextStore.Durability.Writes.{
  IsExact, has_log, written-IsStore, user_data-Steps, note-Steps,
}
use bittensor_nexus_library.ContextStore.Durability.Methods.{
  set_user_data_run, append_user_note_run,
}

module _ {V D : Type 0} ⦃dd : DeepDiff V D⦄ where
  -- A sound store with this live context.
  abbrev pub IsLiveIn : ContextId → Context V → ContextStore V D → Type 0
  IsLiveIn ctx c s =
      IsStore s × (Dict.get ctx s.contexts ≡ some c) × (c.id ≡ ctx) × (c.is_completed ≡ false)

  -- A write to a live context succeeds, and the context is live with the new value.
  pub set_user_data-IsLiveIn :
      (ctx : ContextId) (c : Context V) (key : String) (v : V) (s : ContextStore V D)
      → IsExact dd
      → IsLiveIn ctx c s
      → (s' : ContextStore V D) × (set_user_data c key v s ≡ (ok tt, s'))
        × IsLiveIn ctx (record c { user_data = Dict.put key v c.user_data }) s'
  set_user_data-IsLiveIn ctx c key v s exact (sound, found, names, alive) =
      let (log, logged, _, rooted) = has_log ctx c s sound found in
      let found' : Dict.get c.id s.contexts ≡ some c =
        ap (λ i. Dict.get i s.contexts) names ∙ found in
      let logged' : Dict.get c.id s.persistence.logs ≡ some log =
        ap (λ i. Dict.get i s.persistence.logs) names ∙ logged in
      let c' = record c { user_data = Dict.put key v c.user_data } in
      let contexts' = Dict.put c.id c' s.contexts in
      let set : Dict.get ctx contexts' ≡ some c' =
        subst (λ i. Dict.get i contexts' ≡ some c') names
          (get-put c.id c.id c' s.contexts ∙ rw (beq_refl c.id) refl) in
      (
        _,
        set_user_data_run c key v log s exact found' alive logged',
        (
          written-IsStore _ c c' log contexts' s sound found' logged' alive
              (user_data-Steps c.id c key v exact alive) refl (Sets-put c c' s.contexts),
          set,
          names,
          alive,
        ),
      )

  pub begun-IsLiveIn :
      (ctx : ContextId) (c : Context V) (s : ContextStore V D)
      → IsStore s
      → Dict.get ctx s.contexts ≡ some c
      → c.is_completed ≡ false
      → IsLiveIn ctx c s
  begun-IsLiveIn ctx c s sound found alive =
      let (log, logged, names, rooted) = has_log ctx c s sound found in (sound, found, names, alive)

  -- A note on a live context is written, and the context stays as it is.
  pub append_user_note-IsLiveIn :
      (ctx : ContextId) (c : Context V) (note : String) (s : ContextStore V D)
      → IsLiveIn ctx c s
      → (s' : ContextStore V D) × (append_user_note c note s ≡ (ok tt, s')) × IsLiveIn ctx c s'
  append_user_note-IsLiveIn ctx c note s (sound, found, names, alive) =
      let (log, logged, _, rooted) = has_log ctx c s sound found in
      let found' : Dict.get c.id s.contexts ≡ some c =
        ap (λ i. Dict.get i s.contexts) names ∙ found in
      let logged' : Dict.get c.id s.persistence.logs ≡ some log =
        ap (λ i. Dict.get i s.persistence.logs) names ∙ logged in
      (
        _,
        append_user_note_run c note log s found' alive logged',
        (
          written-IsStore _ c c log s.contexts s sound found' logged' alive
              (note-Steps c.id c note alive) refl (Sets-same c s.contexts found'),
          found,
          names,
          alive,
        ),
      )
