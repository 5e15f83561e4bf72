-- ===== src/Plugin/Manifest.antt =====
-- pkg/plugin/manifest.go: event types, priorities, limits and manifests.
pub mod Ids
pub mod Subscriptions
use Prim.Native.Char.{code}
use dragonfly_wasm.Prelude.{
  ℕ, String, ◌≡◌, Bool, true, false, Option, none, some, List, [], ◌∷◌, str_eq, not, leb, ◌==◌,
  ◌&&◌, ◌||◌, if◌then◌else◌,
}
use dragonfly_wasm.Prelude.Int.{ℤ, pos, negsuc}
use dragonfly_wasm.Plugin.Version.{Version}
use dragonfly_wasm.Plugin.Regex.{Regex, one_of, seq, star, plus, matches}

-- `EventType` is a text; the constants are the events that the handlers dispatch.
abbrev pub EventType : Type 0
EventType = String

abbrev pub priority_normal : ℤ
priority_normal = pos 0

pub record EventSubscription : Type 0 where
  pub event : EventType
  pub priority : ℤ
  pub ignore_cancelled : Bool

pub record Dependency : Type 0 where
  pub id : String
  pub version : Version
  pub optional : Bool

pub record ResourceLimits : Type 0 where
  pub max_memory_mb : ℤ  -- int64
  pub max_execution_ms : ℤ  -- int64
  pub max_fuel : ℕ  -- uint64

abbrev pub default_resource_limits : ResourceLimits
default_resource_limits = record {
  max_memory_mb = pos 64;
  max_execution_ms = pos 100;
  max_fuel = 1_000_000;
}

pub record Manifest : Type 0 where
  pub id : String
  pub name : String
  pub version : Version
  pub description : String
  pub authors : List String
  pub website : String
  pub license : String
  pub api_version : Version
  pub entry_point : String
  pub events : List EventSubscription
  pub dependencies : List Dependency
  pub limits : ResourceLimits
  pub load_before : List String
  pub load_after : List String

-- The code points of a text, which Go's patterns match on.
abbrev pub codes : String → List ℕ
codes String.[] = []
codes (String.◌∷◌ c s) = code c ∷ codes s

abbrev pub is_lower : ℕ → Bool
is_lower c = leb b'a' c && leb c b'z'

abbrev pub is_word : ℕ → Bool
is_word c = is_lower c || (leb b'0' c && leb c b'9') || c == b'_'

abbrev pub is_dot : ℕ → Bool
is_dot c = c == b'.'

-- [a-z][a-z0-9_]*
abbrev pub segment_regex : Regex
segment_regex = seq (one_of is_lower) (star (one_of is_word))

-- ^[a-z][a-z0-9_]*(\.[a-z][a-z0-9_]*)+$
abbrev pub plugin_id_regex : Regex
plugin_id_regex = seq segment_regex (plus (seq (one_of is_dot) segment_regex))

pub data ManifestError : Type 0 where
  id_required : ManifestError
  invalid_id : String → ManifestError
  name_required entry_point_required : ManifestError

unfoldable pub validate : Manifest → Option ManifestError
validate m =
    if str_eq m.id ""
    then some id_required
    else if not (matches plugin_id_regex (codes m.id))
    then some (invalid_id m.id)
    else if str_eq m.name ""
    then some name_required
    else if str_eq m.entry_point ""
    then some entry_point_required
    else none

subscribed_in : List EventSubscription → EventType → Bool
subscribed_in [] event = false
subscribed_in (e ∷ es) event = if str_eq e.event event then true else subscribed_in es event

unfoldable pub subscribed_to : Manifest → EventType → Bool
unfolding subscribed_in
subscribed_to m event = subscribed_in m.events event

priority_in : List EventSubscription → EventType → ℤ
priority_in [] event = priority_normal
priority_in (e ∷ es) event = if str_eq e.event event then e.priority else priority_in es event

unfoldable pub get_event_priority : Manifest → EventType → ℤ
unfolding priority_in
get_event_priority m event = priority_in m.events event
