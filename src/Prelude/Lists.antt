-- ===== src/Prelude/Lists.antt =====
-- Lists measured by native numbers, membership tests and predicates by recursion.
use Prim.Native.Nat.{ℕ, suc, ◌+◌}
use mathlib.Core.Path.{◌≡◌, refl, ap}
use mathlib.Core.List.{List, [], ◌∷◌, ◌++◌}
use mathlib.Core.Bool.{Bool, false, ◌||◌}
use native.Mathlib.Omega.{arith}
use bittensor_nexus_library.Prelude.Tests.{if◌then◌else◌}
use bittensor_nexus_library.Prelude.Equality.{Eq, ◌==◌}

module _ {ℓ} {A : Type ℓ} where
  abbrev pub length : List A → ℕ
  length [] = 0
  length (x ∷ xs) = suc (length xs)

  pub length-append : (xs ys : List A) → length (xs ++ ys) ≡ length xs + length ys
  length-append [] ys = omega arith
  length-append (x ∷ xs) ys = omega (arith, length-append xs ys)

  pub append_nil : (xs : List A) → xs ++ [] ≡ xs
  append_nil [] = refl
  append_nil (x ∷ xs) = ap (λ l. x ∷ l) (append_nil xs)

  pub append_assoc : (xs ys zs : List A) → (xs ++ ys) ++ zs ≡ xs ++ (ys ++ zs)
  append_assoc [] ys zs = refl
  append_assoc (x ∷ xs) ys zs = ap (λ l. x ∷ l) (append_assoc xs ys zs)

  -- `[x for x in xs if p(x)]`
  unfoldable pub keep_if : (A → Bool) → List A → List A
  keep_if p [] = []
  keep_if p (x ∷ xs) = let rest = keep_if p xs in if p x then x ∷ rest else rest

  pub keep_if-append :
      (p : A → Bool) (xs ys : List A) → keep_if p (xs ++ ys) ≡ keep_if p xs ++ keep_if p ys
  unfolding keep_if
  keep_if-append p [] ys = refl
  keep_if-append p (x ∷ xs) ys = ground (arith, keep_if-append p xs ys)

abbrev pub All {ℓ κ} : {X : Type ℓ} → (X → Type κ) → List X → Type κ
All R [] = Unit
All R (x ∷ l) = R x × All R l

module _ {ℓ} {A : Type ℓ} ⦃e : Eq A⦄ where
  -- `a in xs`
  unfoldable pub contains : A → List A → Bool
  contains a [] = false
  contains a (x ∷ xs) = (x == a) || contains a xs

  -- how often `a` stands in the list
  unfoldable pub count : A → List A → ℕ
  count a [] = 0
  count a (x ∷ xs) = (if x == a then 1 else 0) + count a xs

  pub count-append : (a : A) (xs ys : List A) → count a (xs ++ ys) ≡ count a xs + count a ys
  unfolding count
  count-append a [] ys = omega arith
  count-append a (x ∷ xs) ys = omega (arith, count-append a xs ys)
