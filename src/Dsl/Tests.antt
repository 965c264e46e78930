-- ===== src/Dsl/Tests.antt =====
-- The theorems on pipes, at two small graphs.
use bittensor_nexus_library.Prelude.{◌≡◌, ◌↔◌, refl, arith, none, some, [], ◌∷◌, nat_eq, string_eq}
use bittensor_nexus_library.Prelude.Dict
use bittensor_nexus_library.Exceptions.{raise, nexus, internal_framework, ok}
use bittensor_nexus_library.Dsl.Nodes.{Source, Sink, SourceName, node_sources, node_sinks}
use bittensor_nexus_library.Dsl.Nodes.Defaults.{node_sources-node_sinks}
use bittensor_nexus_library.Dsl.Pipes.{
  Pipes, connect, merge, make_targets, no_target, union, or_else, has_tap, primaries_conflict,
}
use bittensor_nexus_library.Dsl.Pipes.View.{primary_of, is_tap}
use bittensor_nexus_library.Dsl.Pipes.Merge.{
  IsValid, connect-IsValid, merge-IsValid, Compatible, Joins,
}
use bittensor_nexus_library.Dsl.Pipes.Join.{merge_iff, merge_comm}

no_pipes : IsValid []
unfolding Dict.get
no_pipes = record { wired = λ j t e. absurd (ground (arith, e)); distinct = tt }

abbrev routed : Pipes
routed = (connect 1 (some 10) (20 ∷ 21 ∷ []) []).1

abbrev tapped : Pipes
tapped = (connect 1 none (22 ∷ []) []).1

connect-IsValid_example : IsValid (connect 1 (some 10) (20 ∷ 21 ∷ []) []).1
connect-IsValid_example = connect-IsValid 1 (some 10) (20 ∷ 21 ∷ []) [] no_pipes

tapped-IsValid : IsValid tapped
tapped-IsValid = connect-IsValid 1 none (22 ∷ []) [] no_pipes

routed-IsValid : IsValid routed
routed-IsValid = connect-IsValid 1 (some 10) (20 ∷ 21 ∷ []) [] no_pipes

merge-IsValid_example : IsValid (merge tapped routed).1
merge-IsValid_example = merge-IsValid tapped routed routed-IsValid

merge_iff_example :
    (((merge tapped routed).0 ≡ ok tt) ↔ Compatible routed tapped)
    × ((merge tapped routed).0 ≡ ok tt → Joins routed tapped (merge tapped routed).1)
merge_iff_example = merge_iff tapped routed routed-IsValid tapped-IsValid

tapped_merges : (merge tapped routed).0 ≡ ok tt
unfolding merge connect Dict.get Dict.put no_target make_targets has_tap primaries_conflict or_else
    union
tapped_merges = refl

merge_comm_example :
    ((merge routed tapped).0 ≡ ok tt)
    × ((s : Source) → primary_of (merge routed tapped).1 s ≡ primary_of (merge tapped routed).1 s)
    × ((s : Source) (k : Sink)
        → is_tap (merge routed tapped).1 s k ≡ is_tap (merge tapped routed).1 s k)
merge_comm_example = merge_comm routed tapped routed-IsValid tapped-IsValid tapped_merges

node_sources-node_sinks_example :
    ((node_sources (("a", 1) ∷ ("b", 2) ∷ []) (some 2)
        ≡ ok (record { sources = ("a", 1) ∷ ("b", 2) ∷ []; default_source = some 2 }))
      ↔ ((name : SourceName) × (Dict.get {V = Source} name (("a", 1) ∷ ("b", 2) ∷ []) ≡ some 2)))
    × (node_sinks (("in", 5) ∷ ("out", 6) ∷ []) (some 5) ≡ raise (nexus internal_framework))
unfolding Dict.get
node_sources-node_sinks_example =
    node_sources-node_sinks (("a", 1) ∷ ("b", 2) ∷ []) (("in", 5) ∷ ("out", 6) ∷ []) 2 5
      (refl, (refl, tt))
