-- ===== src/Dsl/Nodes/Defaults.antt =====
-- The explicit defaults of `NodeSources` and `NodeSinks`, src/nexus/_internal/core/dsl/nodes.py.
use bittensor_nexus_library.Prelude.{
  ℕ, ◌≡◌, ◌↔◌, refl, ap, inl, inr, Bool-cases, true, false, none, some, Option, if◌then◌else◌, [],
  ◌∷◌, ◌==◌, nat_eq, string_eq, arith, beq_refl,
}
use bittensor_nexus_library.Prelude.Dict
use bittensor_nexus_library.Prelude.Dict.{Dict, IsDict, keys, values}
use bittensor_nexus_library.Exceptions.{ok, raise, nexus, internal_framework}
use bittensor_nexus_library.Dsl.Nodes.{
  Source, Sink, SourceName, SinkName, node_sources, node_sinks, is_in, is_value, is_key, sole_or,
}

some_inj : {m n : ℕ} → some m ≡ some n → m ≡ n
some_inj h = cc

no_sink_key : (sink : Sink) (sinks : Dict SinkName Sink) → is_key sink sinks ≡ false
unfolding is_key is_in
no_sink_key sink [] = refl
no_sink_key sink ((name, s) ∷ sinks) = no_sink_key sink sinks

-- A name that is found is not one that is missing.
elsewhere :
    (name n : SourceName) (source : Source) (sources : Dict SourceName Source) (o : Option Source)
    → Dict.get name sources ≡ none
    → Dict.get n sources ≡ some source
    → (if name == n then o else Dict.get n sources) ≡ some source
elsewhere name n source sources o fresh found = elim (Bool-cases (name == n)) [
  | inl same ↦ absurd (
      ground
        (arith, fresh, found, ap (λ i. Dict.get i sources) ((string_eq.beq_iff name n).0 same)))
  | inr other ↦ rw other found
]

tail_entry :
    (name n : SourceName) (s source : Source) (o : Option Source)
    → (s == source) ≡ false
    → (if name == n then some s else o) ≡ some source
    → o ≡ some source
tail_entry name n s source o other h = elim (Bool-cases (name == n)) [
  | inl same ↦ absurd (ground (arith, other, (nat_eq.beq_iff s source).1 (some_inj (rw same at h))))
  | inr apart ↦ rw apart at h
]

-- An entry of the dictionary is one of its values, and each value has an entry.
value_named :
    (source : Source) (sources : Dict SourceName Source)
    → IsDict sources
    → (is_value source sources ≡ true)
      ↔ ((name : SourceName) × (Dict.get name sources ≡ some source))
unfolding is_value is_in Dict.get
value_named source [] d = (λ h. absurd (ground (arith, h)), λ (name, h). absurd (ground (arith, h)))
value_named source ((name, s) ∷ sources) (fresh, d) =
    let (there, back) = value_named source sources d in
    elim (Bool-cases (s == source)) [
      | inl e ↦
          rw e
            (λ h. (name, rw (beq_refl name) (ap some ((nat_eq.beq_iff s source).0 e))), λ h. refl)
      | inr e ↦ rw e (
        λ h. let (n, found) = there h in (n, elsewhere name n source sources (some s) fresh found),
        λ (n, h). back (n, tail_entry name n s source (Dict.get n sources) e h),
      )
    ]

-- A source that is listed stays the default: a sole source is the listed one.
sole_or_listed :
    (source : Source) (sources : Dict SourceName Source)
    → is_value source sources ≡ true
    → sole_or (some source) (values sources) ≡ some source
unfolding is_value is_in sole_or
sole_or_listed source [] h = refl
sole_or_listed source ((name, s) ∷ []) h = ap some (ground (arith, h, nat_eq.beq_iff s source))
sole_or_listed source ((name, s) ∷ t ∷ sources) h = refl

-- An explicit default source is accepted, and is then the default, exactly when some name is listed
-- with it. An explicit default sink is refused, whatever is listed.
pub node_sources-node_sinks :
    (sources : Dict SourceName Source) (sinks : Dict SinkName Sink) (source : Source) (sink : Sink)
    → IsDict sources
    → ((node_sources sources (some source)
          ≡ ok (record { sources = sources; default_source = some source }))
        ↔ ((name : SourceName) × (Dict.get name sources ≡ some source)))
      × (node_sinks sinks (some sink) ≡ raise (nexus internal_framework))
unfolding node_sources node_sinks
node_sources-node_sinks sources sinks source sink d =
    let (there, back) = value_named source sources d in
    let refused = no_sink_key sink sinks in
    elim (Bool-cases (is_value source sources)) [
      | inl e ↦
          let stays = sole_or_listed source sources e in
          rw (e, refused, stays) ((λ h. there e, λ h. refl), refl)
      | inr e ↦
          rw (e, refused)
            ((λ h. absurd (ground (arith, h)), λ h. absurd (ground (arith, e, back h))), refl)
    ]
