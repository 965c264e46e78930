-- ===== src/Prelude/Sort.antt =====
-- Python's stable `sort(key=...)` on a natural key, as insertion sort.
use Prim.Native.Nat.{ℕ, ◌≤◌}
use mathlib.Core.Path.{◌≡◌, refl}
use mathlib.Core.List.{List, [], ◌∷◌}
use mathlib.Core.Bool.{Bool}
use mathlib.Core.Logic.{inl, inr}
use native.Mathlib.Omega.{arith}
use bittensor_nexus_library.Prelude.Tests.{leb, if◌then◌else◌, Bool-cases}
use bittensor_nexus_library.Prelude.Lists.{All, keep_if}

module _ {A : Type 0} (key : A → ℕ) where
  -- before the first element of no smaller key
  unfoldable pub insert_by : A → List A → List A
  insert_by a [] = a ∷ []
  insert_by a (x ∷ xs) = if leb (key a) (key x) then a ∷ x ∷ xs else x ∷ insert_by a xs

  unfoldable pub sort_by : List A → List A
  unfolding insert_by
  sort_by [] = []
  sort_by (x ∷ xs) = insert_by x (sort_by xs)

  abbrev pub AtLeast : ℕ → List A → Type 0
  AtLeast k = All (λ x. k ≤ key x)

  abbrev pub Ascending : List A → Type 0
  Ascending [] = Unit
  Ascending (x ∷ xs) = AtLeast (key x) xs × Ascending xs

  AtLeast-mono : (j k : ℕ) (xs : List A) → j ≤ k → AtLeast k xs → AtLeast j xs
  AtLeast-mono j k [] h a = tt
  AtLeast-mono j k (x ∷ xs) h a = (omega arith, AtLeast-mono j k xs h a.1)

  AtLeast-insert_by :
      (k : ℕ) (a : A) (xs : List A) → k ≤ key a → AtLeast k xs → AtLeast k (insert_by a xs)
  unfolding insert_by
  AtLeast-insert_by k a [] h b = (h, tt)
  AtLeast-insert_by k a (x ∷ xs) h b = ground (arith, AtLeast-insert_by k a xs h b.1)

  insert_by-Ascending : (a : A) (xs : List A) → Ascending xs → Ascending (insert_by a xs)
  unfolding insert_by
  insert_by-Ascending a [] s = (tt, tt)
  insert_by-Ascending a (x ∷ xs) (b, s) = elim (Bool-cases (leb (key a) (key x))) [
    | inl low ↦ rw low ((ground arith, AtLeast-mono (key a) (key x) xs (ground arith) b), (b, s))
    | inr high ↦
        rw high (AtLeast-insert_by (key x) a xs (ground arith) b, insert_by-Ascending a xs s)
  ]

  -- The result of a sort ascends.
  pub sort_by-Ascending : (xs : List A) → Ascending (sort_by xs)
  unfolding sort_by
  sort_by-Ascending [] = tt
  sort_by-Ascending (x ∷ xs) = insert_by-Ascending x (sort_by xs) (sort_by-Ascending xs)

  insert_by_low : (a : A) (xs : List A) → AtLeast (key a) xs → insert_by a xs ≡ a ∷ xs
  unfolding insert_by
  insert_by_low a [] h = refl
  insert_by_low a (x ∷ xs) h = ground (arith, h.0)

  -- A list that ascends already is left alone.
  pub sort_by_sorted : (xs : List A) → Ascending xs → sort_by xs ≡ xs
  unfolding sort_by
  sort_by_sorted [] s = refl
  sort_by_sorted (x ∷ xs) (b, s) = rw (sort_by_sorted xs s) (insert_by_low x xs b)

  AtLeast-keep_if : (k : ℕ) (p : A → Bool) (xs : List A) → AtLeast k xs → AtLeast k (keep_if p xs)
  unfolding keep_if
  AtLeast-keep_if k p [] h = tt
  AtLeast-keep_if k p (x ∷ xs) h = ground (arith, AtLeast-keep_if k p xs h.1)

  keep_if-insert_by :
      (p : A → Bool) (a : A) (xs : List A)
      → Ascending xs
      → keep_if p (insert_by a xs) ≡ (if p a then insert_by a (keep_if p xs) else keep_if p xs)
  unfolding keep_if insert_by
  keep_if-insert_by p a [] s = refl
  keep_if-insert_by p a (x ∷ xs) (b, s) = ground (
    arith,
    keep_if-insert_by p a xs s,
    λ (h : key a ≤ key x).
        insert_by_low a (keep_if p xs)
          (AtLeast-keep_if (key a) p xs (AtLeast-mono (key a) (key x) xs h b)),
  )

  -- Sorting is stable: it commutes with a filter.
  pub keep_if-sort_by :
      (p : A → Bool) (xs : List A) → keep_if p (sort_by xs) ≡ sort_by (keep_if p xs)
  unfolding keep_if sort_by
  keep_if-sort_by p [] = refl
  keep_if-sort_by p (x ∷ xs) =
      ground
        (arith, keep_if-sort_by p xs, keep_if-insert_by p x (sort_by xs) (sort_by-Ascending xs))
