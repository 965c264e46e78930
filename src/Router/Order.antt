-- ===== src/Router/Order.antt =====
-- The order of the neurons of a context does not depend on the order in which pylon lists them.
use bittensor_nexus_library.Prelude.{
  ℕ, suc, ◌≡◌, ◌≢◌, refl, sym, ap, ◌∙◌, subst, List, [], ◌∷◌, length, leb, All, arith, Bool-cases,
  inl, inr,
}
use mathlib.Core.List.{Permᴰ}
use mathlib.Core.List.Permᴰ
use bittensor_nexus_library.Prelude.Sort.{insert_by, sort_by}
use bittensor_nexus_library.ContextStore.{ContextId}
use bittensor_nexus_library.Router.{Neurons, is_empty, ordered_neurons_for_context}

-- What Python documents of `shuffle`: it permutes the list.
abbrev pub IsShuffle : {N : Type 0} → (ContextId → List N → List N) → Type 0
IsShuffle {N} shuffle = (ctx : ContextId) (xs : List N) → Permᴰ xs (shuffle ctx xs)

pub perm_length : {A : Type 0} (xs ys : List A) → Permᴰ xs ys → length xs ≡ length ys
perm_length xs ys Permᴰ.nil = refl
perm_length (x ∷ xs) (y ∷ ys) (Permᴰ.cons e d) = ap suc (perm_length xs ys d)
perm_length xs ys (Permᴰ.swap e f) = refl
perm_length xs ys (Permᴰ.trans {l₂ = zs} d e) = perm_length xs zs d ∙ perm_length zs ys e

pub perm-is_empty : {A : Type 0} (xs ys : List A) → Permᴰ xs ys → is_empty xs ≡ is_empty ys
perm-is_empty xs ys Permᴰ.nil = refl
perm-is_empty xs ys (Permᴰ.cons e d) = refl
perm-is_empty xs ys (Permᴰ.swap e f) = refl
perm-is_empty xs ys (Permᴰ.trans {l₂ = zs} d e) = perm-is_empty xs zs d ∙ perm-is_empty zs ys e

All-perm : {A : Type 0} (P : A → Type 0) (xs ys : List A) → Permᴰ xs ys → All P xs → All P ys
All-perm P xs ys Permᴰ.nil h = tt
All-perm P (x ∷ xs) (y ∷ ys) (Permᴰ.cons e d) (p, h) = (subst P e p, All-perm P xs ys d h)
All-perm P (a ∷ b ∷ l) (c ∷ d ∷ m) (Permᴰ.swap e f) (p, (q, h)) = (subst P f q, (subst P e p, h))
All-perm P xs ys (Permᴰ.trans {l₂ = zs} d e) h = All-perm P zs ys e (All-perm P xs zs d h)

module _ {A : Type 0} (key : A → ℕ) where
  insert_by_perm : (a : A) (xs : List A) → Permᴰ (a ∷ xs) (insert_by key a xs)
  unfolding insert_by
  insert_by_perm a [] = Permᴰ.refl (a ∷ [])
  insert_by_perm a (x ∷ xs) = elim (Bool-cases (leb (key a) (key x))) [
    | inl low ↦ rw low (Permᴰ.refl (a ∷ x ∷ xs))
    | inr high ↦
        rw high (Permᴰ.trans (Permᴰ.swap refl refl) (Permᴰ.cons refl (insert_by_perm a xs)))
  ]

  pub sort_by_perm : (xs : List A) → Permᴰ xs (sort_by key xs)
  unfolding sort_by
  sort_by_perm [] = Permᴰ.nil
  sort_by_perm (x ∷ xs) =
      Permᴰ.trans (Permᴰ.cons refl (sort_by_perm xs)) (insert_by_perm x (sort_by key xs))

  insert_by_comm :
      (a b : A) (xs : List A)
      → key a ≢ key b
      → insert_by key a (insert_by key b xs) ≡ insert_by key b (insert_by key a xs)
  unfolding insert_by
  insert_by_comm a b [] apart = ground (arith, apart)
  insert_by_comm a b (x ∷ xs) apart = ground (arith, apart, insert_by_comm a b xs apart)

  abbrev pub Distinct : List A → Type 0
  Distinct [] = Unit
  Distinct (x ∷ xs) = All (λ y. key x ≢ key y) xs × Distinct xs

  Distinct-perm : (xs ys : List A) → Permᴰ xs ys → Distinct xs → Distinct ys
  Distinct-perm xs ys Permᴰ.nil h = tt
  Distinct-perm (x ∷ xs) (y ∷ ys) (Permᴰ.cons e d) (apart, h) = (
    subst (λ z. All (λ w. key z ≢ key w) ys) e (All-perm (λ w. key x ≢ key w) xs ys d apart),
    Distinct-perm xs ys d h,
  )
  Distinct-perm (a ∷ b ∷ l) (c ∷ d ∷ m) (Permᴰ.swap e f) ((ab, al), (bl, h)) = (
    (
      λ same. ab (ap key e ∙ sym same ∙ sym (ap key f)),
      subst (λ z. All (λ w. key z ≢ key w) l) f bl,
    ),
    (subst (λ z. All (λ w. key z ≢ key w) l) e al, h),
  )
  Distinct-perm xs ys (Permᴰ.trans {l₂ = zs} d e) h =
      Distinct-perm zs ys e (Distinct-perm xs zs d h)

  pub sort_by-perm : (xs ys : List A) → Permᴰ xs ys → Distinct xs → sort_by key xs ≡ sort_by key ys
  unfolding sort_by
  sort_by-perm xs ys Permᴰ.nil h = refl
  sort_by-perm (x ∷ xs) (y ∷ ys) (Permᴰ.cons e d) (apart, h) =
      ap (insert_by key x) (sort_by-perm xs ys d h) ∙ ap (λ z. insert_by key z (sort_by key ys)) e
  sort_by-perm (a ∷ b ∷ l) (c ∷ d ∷ m) (Permᴰ.swap e f) ((ab, al), (bl, h)) =
      insert_by_comm a b (sort_by key l) ab
      ∙ ap (λ z. insert_by key z (insert_by key a (sort_by key l))) f
      ∙ ap (λ z. insert_by key c (insert_by key z (sort_by key l))) e
  sort_by-perm xs ys (Permᴰ.trans {l₂ = zs} d e) h =
      sort_by-perm xs zs d h ∙ sort_by-perm zs ys e (Distinct-perm xs zs d h)

-- Neurons with distinct hotkeys get the same order in a context, in whatever order pylon lists them.
pub ordered_neurons-perm :
    {N : Type 0} (view : Neurons N) (shuffle : ContextId → List N → List N) (ctx : ContextId)
    (xs ys : List N)
    → Permᴰ xs ys
    → Distinct view.hotkey xs
    → ordered_neurons_for_context view shuffle ctx xs
      ≡ ordered_neurons_for_context view shuffle ctx ys
unfolding ordered_neurons_for_context
ordered_neurons-perm view shuffle ctx xs ys same distinct =
    ap (shuffle ctx) (sort_by-perm view.hotkey xs ys same distinct)

pub ordered_perm :
    {N : Type 0} (view : Neurons N) (shuffle : ContextId → List N → List N) (ctx : ContextId)
    (xs : List N)
    → IsShuffle shuffle
    → Permᴰ xs (ordered_neurons_for_context view shuffle ctx xs)
unfolding ordered_neurons_for_context
ordered_perm view shuffle ctx xs permutes =
    Permᴰ.trans (sort_by_perm view.hotkey xs) (permutes ctx (sort_by view.hotkey xs))
