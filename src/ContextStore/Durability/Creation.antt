-- ===== src/ContextStore/Durability/Creation.antt =====
-- `create_context` on a sound store: all its checks come before its first write.
use bittensor_nexus_library.Prelude.{
  ℕ, ◌≡◌, refl, true, ap, ◌∙◌, subst, false, Option, none, some, List, [], ◌∷◌, ◌++◌, ◌==◌,
  contains, nat_eq, string_eq, arith, All, Bool-cases, Option-cases, ◌⊎◌, inl, inr,
}
use bittensor_nexus_library.Prelude.Dict
use bittensor_nexus_library.Prelude.Dict.{Dict, IsDict, get-put, put-IsDict}
use bittensor_nexus_library.Exceptions
use bittensor_nexus_library.Exceptions.{Result, Exn, ok, raise}
use bittensor_nexus_library.ContextStore.{
  ContextId, DeepDiff, ParentContextSnapshot, Context, ContextStore, InMemoryPersistence,
  child_context_created,
}
use bittensor_nexus_library.ContextStore.Persistence.{
  absent, next_entry, check_parents, add_child_to, add_child,
}
use bittensor_nexus_library.ContextStore.Store.{lock_context, lock_contexts, snapshot, snapshots}
use bittensor_nexus_library.ContextStore.Durability.{IsStore}
use bittensor_nexus_library.ContextStore.Durability.Sets.{Sets, Sets-same}
use bittensor_nexus_library.ContextStore.Durability.Append.{append-Tracks}
use bittensor_nexus_library.ContextStore.Durability.Writes.{has_log, child-Steps}

-- The snapshots are those of the parents, in order.
abbrev pub Taken :
    {V : Type 0}
    → Dict ContextId (Context V)
    → List ContextId
    → List (ParentContextSnapshot V)
    → Type 0
Taken contexts [] [] = Unit
Taken contexts [] (snap ∷ snaps) = true ≡ false
Taken contexts (p ∷ ps) [] = true ≡ false
Taken {V} contexts (p ∷ ps) (snap ∷ snaps) =
    ((c : Context V) × (Dict.get p contexts ≡ some c) × (snap ≡ snapshot c))
    × Taken contexts ps snaps

-- A parent that may have a child.
abbrev pub IsLive : {V : Type 0} → Dict ContextId (Context V) → ContextId → Type 0
IsLive {V} contexts ctx =
    (c : Context V) × (Dict.get ctx contexts ≡ some c) × (c.is_completed ≡ false)

present {ℓ} : {A : Type ℓ} (o : Option A) → absent o ≡ false → (a : A) × (o ≡ some a)
present none h = absurd (ground (arith, h))
present (some a) h = (a, refl)

put_present :
    {A : Type 0} (k j : ℕ) (a : A) (d : Dict ℕ A)
    → absent (Dict.get k d) ≡ false
    → absent (Dict.get j (Dict.put k a d)) ≡ absent (Dict.get j d)
put_present k j a d h = elim (Bool-cases (k == j)) [
  | inl here ↦
      let same : k ≡ j = ground (arith, here) in
      let h' : absent (Dict.get j d) ≡ false = subst (λ i. absent (Dict.get i d) ≡ false) same h in
      ap absent (get-put k j a d) ∙ rw (here, h') refl
  | inr there ↦ ap absent (get-put k j a d) ∙ rw there refl
]

module _ {V D : Type 0} where
  -- Locking writes nothing.
  pub lock_contexts_cases :
      (ps : List ContextId) (s : ContextStore V D)
      → (lock_contexts ps s ≡ (raise (Exceptions.invalid_context_id), s))
        ⊎ (lock_contexts ps s ≡ (ok tt, s))
  unfolding lock_contexts lock_context
  lock_contexts_cases [] s = inr refl
  lock_contexts_cases (p ∷ ps) s = elim (Bool-cases (contains p s.locks)) [
    | inl here ↦ rw here (lock_contexts_cases ps s)
    | inr there ↦ inl (rw there refl)
  ]

module _ {V D : Type 0} ⦃dd : DeepDiff V D⦄ where
  -- Taking the snapshots writes nothing, and succeeds on live parents only.
  abbrev pub Snapshots : List ContextId → ContextStore V D → Type 0
  Snapshots ps s =
      ((e : Exn) × (snapshots ps s ≡ (raise e, s)))
      ⊎ ((snaps : List (ParentContextSnapshot V)) × (snapshots ps s ≡ (ok snaps, s))
          × All (IsLive s.contexts) ps
          × Taken s.contexts ps snaps)

  pub Snapshots-cases : (ps : List ContextId) (s : ContextStore V D) → Snapshots ps s
  unfolding snapshots
  Snapshots-cases [] s = inr ([], refl, tt, tt)
  Snapshots-cases (p ∷ ps) s = elim (Option-cases (Dict.get p s.contexts)) [
    | inl e ↦ inl (Exceptions.invalid_context_id, rw e refl)
    | inr (c, e) ↦ elim (Bool-cases c.is_completed) [
      | inl done ↦ inl (Exceptions.context_completed, rw (e, done) refl)
      | inr alive ↦ elim (Snapshots-cases ps s) [
        | inl (x, h) ↦ inl (x, rw (e, alive, h) refl)
        | inr (snaps, h, rest, kept) ↦
            inr (
              snapshot c ∷ snaps,
              rw (e, alive, h) refl,
              ((c, e, alive), rest),
              ((c, e, refl), kept),
            )
      ]
    ]
  ]

  pub check_parents_run :
      (ps : List ContextId) (s : ContextStore V D)
      → IsStore s
      → All (IsLive s.contexts) ps
      → check_parents ps s.persistence ≡ (ok tt, s.persistence)
  unfolding check_parents
  check_parents_run [] s sound all = refl
  check_parents_run (p ∷ ps) s sound ((c, found, alive), all) =
      let (log, logged, names, rooted) = has_log p c s sound found in
      rw (rooted, logged) (check_parents_run ps s sound all)

  -- Each parent's log gets the entry of the new child; its own log stays absent.
  pub add_child_run :
      (child : ContextId) (ps : List ContextId) (s : ContextStore V D)
      → IsStore s
      → Dict.get child s.persistence.logs ≡ none
      → All (IsLive s.contexts) ps
      → (p' : InMemoryPersistence V D) × (add_child child ps s.persistence ≡ (ok tt, p'))
        × IsStore (record s { persistence = p' })
        × (Dict.get child p'.logs ≡ none)
  unfolding add_child add_child_to
  add_child_run child [] s sound fresh all = (s.persistence, refl, sound, fresh)
  add_child_run child (p ∷ ps) s sound fresh ((c, found, alive), all) =
      let (log, logged, names, rooted) = has_log p c s sound found in
      let (children, childed) = present (Dict.get p s.persistence.context_tree) rooted in
      let entry = child_context_created child in
      let p₁ = record s.persistence {
        logs = Dict.put p (log ++ next_entry p entry log ∷ []) s.persistence.logs;
        context_tree = Dict.put p (children ++ child ∷ []) s.persistence.context_tree;
      } in
      let found' : Dict.get c.id s.contexts ≡ some c =
        ap (λ i. Dict.get i s.contexts) names ∙ found in
      let tracks =
        append-Tracks p entry c c log s.contexts s.contexts s.persistence p₁ sound.0 found logged
          alive (child-Steps p c child alive) refl
          (subst (λ i. Sets i c s.contexts s.contexts) names (Sets-same c s.contexts found')) refl
          (λ j. put_present p j (children ++ child ∷ []) s.persistence.context_tree rooted) in
      let fresh' : Dict.get child p₁.logs ≡ none = ground (
        arith,
        fresh,
        logged,
        get-put p child (log ++ next_entry p entry log ∷ []) s.persistence.logs,
      ) in
      let (p', done, sound', fresh'') =
        add_child_run child ps (record s { persistence = p₁ }) (tracks, sound.1) fresh' all in
      (p', rw (logged, childed) done, sound', fresh'')
