-- ===== src/ContextStore/Durability/Enrolment.antt =====
-- The new context of `create_context`: it enters memory, the log and the locks together.
use bittensor_nexus_library.Prelude.{
  ◌≡◌, refl, sym, ap, ◌∙◌, subst, true, false, not, none, some, List, [], ◌∷◌, ◌==◌, beq_refl,
  contains, nat_eq, string_eq, arith, Bool-cases, Option-cases, ◌⊎◌, inl, inr,
}
use bittensor_nexus_library.Prelude.Dict
use bittensor_nexus_library.Prelude.Dict.{Dict, IsDict, get-put, put-IsDict}
use bittensor_nexus_library.Exceptions
use bittensor_nexus_library.Exceptions.{Result, Exn, ok, raise}
use bittensor_nexus_library.ContextStore.{
  ContextId, DeepDiff, ParentContextSnapshot, Context, ContextStore, context_data_initialized,
}
use bittensor_nexus_library.ContextStore.Persistence
use bittensor_nexus_library.ContextStore.Persistence.{
  absent, next_entry, set_log, first_entry, check_parents, add_child_to, add_child,
}
use bittensor_nexus_library.ContextStore.Store.{
  from_keys, new_context, lock_context, register_context, record_initial_data, create_context,
}
use bittensor_nexus_library.ContextStore.Recovery.{blank, follows}
use bittensor_nexus_library.ContextStore.Recovery.Local.{
  nothing, local_step, local_steps, local_entry,
}
use bittensor_nexus_library.ContextStore.Durability.{Replays, Tracked, IsStore}
use bittensor_nexus_library.ContextStore.Durability.Append.{Tracked-elsewhere}
use bittensor_nexus_library.ContextStore.Durability.Writes.{
  written, written-IsStore, has_log, initialized-Steps,
}
use bittensor_nexus_library.ContextStore.Durability.Methods.{append_entry_run}
use bittensor_nexus_library.ContextStore.Durability.Creation.{
  Taken, lock_contexts_cases, Snapshots-cases, check_parents_run, add_child_run,
}

module _ {V D : Type 0} ⦃dd : DeepDiff V D⦄ where
  -- A context enters memory and the log together.
  abbrev pub enrolled : ContextId → List ContextId → Context V → ContextStore V D → ContextStore V D
  enrolled child parents c s = record s {
    persistence = record {
      logs = Dict.put child (first_entry child parents ∷ []) s.persistence.logs;
      context_tree = Dict.put child [] s.persistence.context_tree;
    };
    contexts = Dict.put child c s.contexts;
    locks = child ∷ s.locks;
  }

  first_replay :
      (child : ContextId) (parents : List ContextId)
      → Replays (some (blank dd.null child)) false (first_entry {D = D} child parents ∷ [])
  unfolding local_steps local_step local_entry nothing follows
  first_replay child parents = (
    record {
      context = some (blank dd.null child);
      last_message = none;
      completed = false;
      step = some 0;
    },
    refl,
    refl,
    refl,
    0,
    refl,
    refl,
  )

  pub enrolled-IsStore :
      (child : ContextId) (parents : List ContextId) (s : ContextStore V D)
      → IsStore s
      → IsStore (enrolled child parents (blank dd.null child) s)
  unfolding contains
  enrolled-IsStore child parents s ((d, tracked), locks) =
      let c = blank dd.null child in
      let s' = enrolled child parents c s in
      let log = first_entry child parents ∷ [] in
      (
        (
          put-IsDict child log s.persistence.logs d,
          λ j. elim (Bool-cases (child == j)) [
            | inl here ↦
                let eq : child ≡ j = ground (arith, here) in
                let c_here : Dict.get child s'.contexts ≡ some c =
                  get-put child child c s.contexts ∙ rw (beq_refl child) refl in
                let log_here : Dict.get child s'.persistence.logs ≡ some log =
                  get-put child child log s.persistence.logs ∙ rw (beq_refl child) refl in
                let tree_here : Dict.get child s'.persistence.context_tree ≡ some [] =
                  get-put child child [] s.persistence.context_tree ∙ rw (beq_refl child) refl in
                subst (λ i. Tracked i (Dict.get i s'.contexts) s'.persistence) eq
                  (subst (λ o. Tracked child o s'.persistence) (sym c_here)
                    (
                      log,
                      log_here,
                      ap absent tree_here,
                      (refl, refl, tt),
                      refl,
                      first_replay child parents,
                    ))
            | inr there ↦
                let c_there : Dict.get j s'.contexts ≡ Dict.get j s.contexts =
                  get-put child j c s.contexts ∙ rw there refl in
                let log_there : Dict.get j s'.persistence.logs ≡ Dict.get j s.persistence.logs =
                  get-put child j log s.persistence.logs ∙ rw there refl in
                let tree_there : Dict.get j s'.persistence.context_tree
                    ≡ Dict.get j s.persistence.context_tree =
                  get-put child j [] s.persistence.context_tree ∙ rw there refl in
                subst (λ o. Tracked j o s'.persistence) (sym c_there)
                  (Tracked-elsewhere j (Dict.get j s.contexts) s.persistence s'.persistence
                    log_there (ap absent tree_there) (tracked j))
          ],
        ),
        λ j. ground (arith, locks j, get-put child j c s.contexts),
      )

  pub unknown :
      (child : ContextId) (s : ContextStore V D)
      → IsStore s
      → Dict.get child s.persistence.logs ≡ none
      → Dict.get child s.contexts ≡ none
  unknown child s sound fresh = elim (Option-cases (Dict.get child s.contexts)) [
    | inl e ↦ e
    | inr (c, e) ↦
        let (log, logged, names, rooted) = has_log child c s sound e in
        absurd (ground (arith, fresh, logged))
  ]

  -- A child of an id that no log has: either nothing changes, or the new context is in place.
  abbrev pub Creates : ContextId → List ContextId → ContextStore V D → Type 0
  Creates child parents s =
      ((e : Exn) × (create_context child parents s ≡ (raise e, s)))
      ⊎ ((snaps : List (ParentContextSnapshot V)) × (s' : ContextStore V D) × (create_context child
              parents s
            ≡ (ok (new_context dd.null child snaps), s'))
          × (Dict.get child s'.contexts ≡ some (new_context dd.null child snaps))
          × Taken s.contexts (from_keys [] parents) snaps
          × IsStore s')

  initial_data_run :
      (child : ContextId) (parents : List ContextId) (snaps : List (ParentContextSnapshot V))
      (s : ContextStore V D)
      → IsStore s
      → (s' : ContextStore V D) × (record_initial_data
            (new_context dd.null child snaps)
            (enrolled child parents (new_context dd.null child snaps) s)
          ≡ (ok tt, s'))
        × (Dict.get child s'.contexts ≡ some (new_context dd.null child snaps))
        × (contains child s'.locks ≡ true)
        × IsStore s'
  unfolding record_initial_data contains
  initial_data_run child parents [] s sound =
      let c = blank dd.null child in
      (
        enrolled child parents c s,
        refl,
        get-put child child c s.contexts ∙ rw (beq_refl child) refl,
        rw (beq_refl child) refl,
        enrolled-IsStore child parents s sound,
      )
  initial_data_run child parents (first ∷ rest) s sound =
      let c₀ = blank dd.null child in
      let c = new_context dd.null child (first ∷ rest) in
      let s₀ = enrolled child parents c₀ s in
      let s₁ = enrolled child parents c s in
      let log = first_entry child parents ∷ [] in
      let entry = context_data_initialized c.payload c.user_data c.parent_contexts in
      let found₀ : Dict.get child s₀.contexts ≡ some c₀ =
        get-put child child c₀ s.contexts ∙ rw (beq_refl child) refl in
      let found₁ : Dict.get child s₁.contexts ≡ some c =
        get-put child child c s.contexts ∙ rw (beq_refl child) refl in
      let logged : Dict.get child s₀.persistence.logs ≡ some log =
        get-put child child log s.persistence.logs ∙ rw (beq_refl child) refl in
      (
        written entry c log s₁.contexts s₁,
        append_entry_run entry c log s₁ found₁ refl logged,
        found₁,
        rw (beq_refl child) refl,
        written-IsStore entry c₀ c log s₁.contexts s₀ (enrolled-IsStore child parents s sound)
            found₀ logged refl (initialized-Steps child c₀ c refl refl refl) refl
            (λ j. ground (arith, get-put child j c s.contexts, get-put child j c₀ s.contexts)),
      )

  pub create_context_cases :
      (child : ContextId) (parents : List ContextId) (s : ContextStore V D)
      → IsStore s
      → Dict.get child s.persistence.logs ≡ none
      → Creates child parents s
  unfolding create_context Persistence.create_context register_context lock_context
  create_context_cases child parents s sound fresh =
      let ps = from_keys [] parents in
      elim (lock_contexts_cases ps s) [
        | inl e ↦ inl (Exceptions.invalid_context_id, rw e refl)
        | inr locked ↦ elim (Snapshots-cases ps s) [
          | inl (x, e) ↦ inl (x, rw (locked, e) refl)
          | inr (snaps, taken, alive, kept) ↦
              let (p', added, sound', fresh') = add_child_run child ps s sound fresh alive in
              let s₁ = record s { persistence = p' } in
              let (s', noted, found, registered, sound'') =
                initial_data_run child ps snaps s₁ sound' in
              let unlocked : contains child s.locks ≡ false =
                sound.1 child ∙ ap (λ o. not (absent o)) (unknown child s sound fresh) in
              inr (
                snaps,
                s',
                rw
                    (
                      locked,
                      taken,
                      check_parents_run ps s sound alive,
                      added,
                      unlocked,
                      noted,
                      registered,
                    )
                    refl,
                found,
                kept,
                sound'',
              )
        ]
      ]
