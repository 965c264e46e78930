-- ===== src/Dsl/Pipes.antt =====
-- `Targets` and `Pipes` of src/nexus/_internal/core/dsl/nodes.py: one primary and a set of taps for
-- each source. A frozenset is a list without repetitions whose order nothing reads.
pub mod View
pub mod Merge
pub mod Absorb
pub mod Join
use bittensor_nexus_library.Prelude.{
  ℕ, ◌≡◌, Bool, true, false, ◌&&◌, ◌||◌, not, Option, none, some, List, [], ◌∷◌, contains, Eq, ◌==◌,
  nat_eq, if◌then◌else◌,
}
use bittensor_nexus_library.Prelude.Dict
use bittensor_nexus_library.Prelude.Dict.{Dict}
use bittensor_nexus_library.Exceptions.{Exn, ok, nexus, flow_misconfigured}
use bittensor_nexus_library.Exceptions.Exec.{Exec, throw, pure, modify, gets, ◌>>=◌, ◌>>◌}
use bittensor_nexus_library.Dsl.Nodes.{Source, Sink}

module _ {ℓ} {A : Type ℓ} ⦃e : Eq A⦄ where
  -- a set with one more element
  unfoldable pub add_to_set : A → List A → List A
  unfolding contains
  add_to_set a xs = if contains a xs then xs else a ∷ xs

  -- `frozenset(xs)`
  unfoldable pub frozenset : List A → List A
  unfolding add_to_set
  frozenset [] = []
  frozenset (x ∷ xs) = add_to_set x (frozenset xs)

  -- `xs | ys`
  unfoldable pub union : List A → List A → List A
  unfolding add_to_set
  union [] ys = ys
  union (x ∷ xs) ys = add_to_set x (union xs ys)

pub record Targets : Type 0 where
  pub primary : Option Sink
  pub taps : List Sink

unfoldable pub make_targets : Option Sink → List Sink → Targets
unfolding frozenset
make_targets primary taps = record { primary = primary; taps = frozenset taps }

unfoldable pub is_empty : List Sink → Bool
is_empty [] = true
is_empty (x ∷ xs) = false

unfoldable pub is_none : Option Sink → Bool
is_none none = true
is_none (some p) = false

-- `targets.primary is None and not targets.taps`
unfoldable pub no_target : Targets → Bool
unfolding is_none is_empty
no_target t = is_none t.primary && is_empty t.taps

unfoldable pub primaries_conflict : Option Sink → Option Sink → Bool
primaries_conflict (some p) (some q) = not (p == q)
primaries_conflict _ _ = false

unfoldable pub or_else : Option Sink → Option Sink → Option Sink
or_else (some p) q = some p
or_else none q = q

unfoldable pub has_tap : Option Sink → List Sink → Bool
has_tap none taps = false
has_tap (some p) taps = contains p taps

abbrev pub Pipes : Type 0
Pipes = Dict Source Targets

-- `Pipes.__getitem__`: a source that is not there has no targets.
unfoldable pub targets_or_none : Option Targets → Targets
targets_or_none none = record { primary = none; taps = [] }
targets_or_none (some t) = t

unfoldable pub get_item : Source → Pipes → Targets
unfolding targets_or_none
get_item source pipes = targets_or_none (Dict.get source pipes)

-- `_merge_targets`
unfoldable pub merge_targets : Targets → Targets → Exec Pipes Targets
merge_targets existing incoming =
    if primaries_conflict existing.primary incoming.primary
    then throw (nexus flow_misconfigured)
    else pure (record {
      primary = or_else existing.primary incoming.primary;
      taps = union existing.taps incoming.taps;
    })

unfoldable pub merge_existing : Option Targets → Targets → Exec Pipes Targets
unfolding merge_targets
merge_existing none incoming = pure incoming
merge_existing (some existing) incoming = merge_targets existing incoming

-- `_validate_roles`
unfoldable pub validate_roles : Targets → Exec Pipes (Unit {0})
validate_roles t = if has_tap t.primary t.taps then throw (nexus flow_misconfigured) else pure tt

unfoldable pub connect : Source → Option Sink → List Sink → Exec Pipes (Unit {0})
unfolding merge_existing validate_roles
connect source primary taps =
    let incoming = make_targets primary taps in
    if no_target incoming then throw (nexus flow_misconfigured) else do
      existing ← gets (Dict.get source)
      targets ← merge_existing existing incoming
      validate_roles targets
      modify (Dict.put source targets)

-- The loop of `merge` over the items of the other graph. An entry that raises leaves what was
-- connected before it.
unfoldable pub merge : Pipes → Exec Pipes (Unit {0})
unfolding connect
merge [] = pure tt
merge ((source, targets) ∷ other) = do connect source targets.primary targets.taps; merge other
