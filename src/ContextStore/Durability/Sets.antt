-- ===== src/ContextStore/Durability/Sets.antt =====
-- A change of the contexts in memory at one key.
use bittensor_nexus_library.Prelude.{
  ◌≡◌, refl, ◌∙◌, subst, some, List, ◌==◌, nat_eq, if◌then◌else◌, arith, Bool-cases, inl, inr,
}
use bittensor_nexus_library.Prelude.Dict
use bittensor_nexus_library.Prelude.Dict.{Dict, get-put}
use bittensor_nexus_library.ContextStore.{ContextId, Context}
use bittensor_nexus_library.ContextStore.Durability.{Locks}

-- `contexts'` differs from `contexts` at `ctx` only.
abbrev pub Sets :
    {V : Type 0}
    → ContextId
    → Context V
    → Dict ContextId (Context V)
    → Dict ContextId (Context V)
    → Type 0
Sets ctx c contexts contexts' =
    (j : ContextId) → Dict.get j contexts' ≡ (if ctx == j then some c else Dict.get j contexts)

module _ {V : Type 0} where
  pub Locks-set :
      (c c' : Context V) (contexts contexts' : Dict ContextId (Context V)) (locks : List ContextId)
      → Locks contexts locks
      → Dict.get c.id contexts ≡ some c
      → Sets c.id c' contexts contexts'
      → Locks contexts' locks
  Locks-set c c' contexts contexts' locks h found sets j = elim (Bool-cases (c.id == j)) [
    | inl here ↦
        let same : c.id ≡ j = ground (arith, here) in
        let found_j : Dict.get j contexts ≡ some c =
          subst (λ i. Dict.get i contexts ≡ some c) same found in
        let set_j : Dict.get j contexts' ≡ some c' = sets j ∙ rw here refl in
        h j ∙ rw (found_j, set_j) refl
    | inr there ↦
        let set_j : Dict.get j contexts' ≡ Dict.get j contexts = sets j ∙ rw there refl in
        h j ∙ rw set_j refl
  ]

  pub Sets-put :
      (c c' : Context V) (contexts : Dict ContextId (Context V))
      → Sets c.id c' contexts (Dict.put c.id c' contexts)
  Sets-put c c' contexts j = get-put c.id j c' contexts

  pub Sets-same :
      (c : Context V) (contexts : Dict ContextId (Context V))
      → Dict.get c.id contexts ≡ some c
      → Sets c.id c contexts contexts
  Sets-same c contexts found j = elim (Bool-cases (c.id == j)) [
    | inl here ↦
        let same : c.id ≡ j = ground (arith, here) in
        rw here (subst (λ i. Dict.get i contexts ≡ some c) same found)
    | inr there ↦ rw there refl
  ]
