-- ===== src/Dsl/Nodes.antt =====
-- Endpoints and their groups: `NodeSources`, `NodeSinks` and `Targets` of
-- src/nexus/_internal/core/dsl/nodes.py. Sources and sinks are objects that are compared by identity;
-- a number stands for each object.
pub mod Defaults
use bittensor_nexus_library.Prelude.{
  ℕ, String, Bool, true, false, Option, none, some, List, [], ◌∷◌, map, ◌||◌, ◌==◌, if◌then◌else◌,
  nat_eq, string_eq,
}
use bittensor_nexus_library.Prelude.Dict.{Dict, keys, values}
use bittensor_nexus_library.Exceptions.{Result, ok, raise, nexus, internal_framework}

abbrev pub Source : Type 0
Source = ℕ

abbrev pub Sink : Type 0
Sink = ℕ

abbrev pub SourceName : Type 0
SourceName = String

abbrev pub SinkName : Type 0
SinkName = String

pub record NodeSources : Type 0 where
  pub sources : Dict SourceName Source
  pub default_source : Option Source

pub record NodeSinks : Type 0 where
  pub sinks : Dict SinkName Sink
  pub default_sink : Option Sink

-- `if len(d) == 1: default = next(iter(d.values()))`
unfoldable pub sole_or : Option ℕ → List ℕ → Option ℕ
sole_or given (only ∷ []) = some only
sole_or given others = given

-- The Python objects that a membership test compares. Equality of names is that of strings, endpoints
-- are compared by identity, and a string and an endpoint are not equal.
pub data Object : Type 0 where
  name_object : String → Object
  endpoint : ℕ → Object

abbrev pub equals : Object → Object → Bool
equals (name_object s) (name_object t) = s == t
equals (endpoint m) (endpoint n) = m == n
equals _ _ = false

-- `object in objects`
unfoldable pub is_in : Object → List Object → Bool
is_in object [] = false
is_in object (x ∷ xs) = equals x object || is_in object xs

-- `sink in sinks`, which on a dict looks at the keys.
unfoldable pub is_key : Sink → Dict SinkName Sink → Bool
unfolding is_in
is_key sink sinks = is_in (endpoint sink) (map name_object (keys sinks))

-- `source in sources.values()`
unfoldable pub is_value : Source → Dict SourceName Source → Bool
unfolding is_in
is_value source sources = is_in (endpoint source) (map endpoint (values sources))

unfoldable pub is_none_or_value : Option Source → Dict SourceName Source → Bool
unfolding is_value
is_none_or_value none sources = true
is_none_or_value (some s) sources = is_value s sources

-- The dataclass constructor of `NodeSources`, with its `__post_init__`.
unfoldable pub node_sources : Dict SourceName Source → Option Source → Result NodeSources
unfolding sole_or is_none_or_value
node_sources sources default =
    if is_none_or_value default sources
    then ok (record { sources = sources; default_source = sole_or default (values sources) })
    else raise (nexus internal_framework)

unfoldable pub is_none_or_key : Option Sink → Dict SinkName Sink → Bool
unfolding is_key
is_none_or_key none sinks = true
is_none_or_key (some s) sinks = is_key s sinks

-- The dataclass constructor of `NodeSinks`, with its `__post_init__`.
unfoldable pub node_sinks : Dict SinkName Sink → Option Sink → Result NodeSinks
unfolding sole_or is_none_or_key
node_sinks sinks default =
    if is_none_or_key default sinks
    then ok (record { sinks = sinks; default_sink = sole_or default (values sinks) })
    else raise (nexus internal_framework)
