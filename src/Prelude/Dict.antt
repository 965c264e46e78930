-- ===== src/Prelude/Dict.antt =====
-- Python's `dict`: entries in insertion order. An assignment to a present key keeps its place.
use mathlib.Core.Path.{◌≡◌, refl}
use mathlib.Core.List.{List, [], ◌∷◌, map}
use mathlib.Core.Option.{Option, none, some}
use native.Mathlib.Omega.{arith}
use bittensor_nexus_library.Prelude.Tests.{if◌then◌else◌}
use bittensor_nexus_library.Prelude.Equality.{Eq, ◌==◌}

abbrev pub Dict {ℓ κ} : Type ℓ → Type κ → Type (ℓ ⊔ κ)
Dict K V = List (K × V)

module _ {ℓ κ} {K : Type ℓ} {V : Type κ} where
  abbrev pub keys : Dict K V → List K
  keys = map (λ e. e.0)

  abbrev pub values : Dict K V → List V
  values = map (λ e. e.1)

module _ {ℓ κ} {K : Type ℓ} {V : Type κ} ⦃e : Eq K⦄ where
  -- `d.get(k)`
  unfoldable pub get : K → Dict K V → Option V
  get k [] = none
  get k ((j, v) ∷ d) = if j == k then some v else get k d

  -- `d[k] = v`
  unfoldable pub put : K → V → Dict K V → Dict K V
  put k v [] = (k, v) ∷ []
  put k v ((j, w) ∷ d) = if j == k then (j, v) ∷ d else (j, w) ∷ put k v d

  -- `d.pop(k, None)`, `del d[k]`: keys are distinct, so the first entry is the only one.
  unfoldable pub remove : K → Dict K V → Dict K V
  remove k [] = []
  remove k ((j, w) ∷ d) = let rest = remove k d in if j == k then rest else (j, w) ∷ rest

  pub get-put :
      (k j : K) (v : V) (d : Dict K V) → get j (put k v d) ≡ (if k == j then some v else get j d)
  unfolding get put
  get-put k j v [] = refl
  get-put k j v ((i, w) ∷ d) =
      ground (arith, e.beq_iff k j, e.beq_iff i k, e.beq_iff i j, get-put k j v d)

  pub get-remove :
      (k j : K) (d : Dict K V) → get j (remove k d) ≡ (if k == j then none else get j d)
  unfolding get remove
  get-remove k j [] = ground arith
  get-remove k j ((i, w) ∷ d) =
      ground (arith, e.beq_iff k j, e.beq_iff i k, e.beq_iff i j, get-remove k j d)

module _ {ℓ κ} {K : Type ℓ} {V : Type κ} ⦃e : Eq K⦄ where
  pub remove_missing : (k : K) (d : Dict K V) → get k d ≡ none → remove k d ≡ d
  unfolding get remove
  remove_missing k [] h = refl
  remove_missing k ((j, w) ∷ d) h = ground (arith, remove_missing k d, h)

pub ruleset dict_laws = (get-put, get-remove)

-- The keys of a dict are distinct.
module _ {ℓ κ} {K : Type ℓ} {V : Type κ} ⦃e : Eq K⦄ where
  abbrev pub IsDict : Dict K V → Type κ
  IsDict [] = Unit
  IsDict ((k, v) ∷ d) = (get k d ≡ none) × IsDict d

  pub put-IsDict : (k : K) (v : V) (d : Dict K V) → IsDict d → IsDict (put k v d)
  unfolding put get
  put-IsDict k v [] h = (refl, tt)
  put-IsDict k v ((j, w) ∷ d) (fresh, rest) =
      ground (arith, get-put k j v d, put-IsDict k v d rest, e.beq_iff j k, e.beq_iff k j)

  pub remove-IsDict : (k : K) (d : Dict K V) → IsDict d → IsDict (remove k d)
  unfolding remove
  remove-IsDict k [] h = tt
  remove-IsDict k ((j, w) ∷ d) (fresh, rest) =
      ground (arith, get-remove k j d, remove-IsDict k d rest)
