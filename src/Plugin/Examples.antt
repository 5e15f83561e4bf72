-- ===== src/Plugin/Examples.antt =====
-- Runs of pkg/plugin's functions, and the theorems at concrete inputs.
use dragonfly_wasm.Prelude.{
  ℕ, String, ◌≡◌, ◌≢◌, refl, ◌↔◌, true, false, none, some, List, [], ◌∷◌, arith, All,
}
use dragonfly_wasm.Prelude.Int.{pos, negsuc}
use dragonfly_wasm.Plugin.Version.{Version, compare}
use dragonfly_wasm.Plugin.Regex.{Matches}
use dragonfly_wasm.Plugin.Manifest.{
  Manifest, invalid_id, entry_point_required, codes, is_lower, plugin_id_regex,
  default_resource_limits, validate, get_event_priority,
}
use dragonfly_wasm.Plugin.Manifest.Ids.{is_id_char, validate-accepts, validate-id_safe}
use dragonfly_wasm.Plugin.Metrics.{Metrics, new_metrics}
use dragonfly_wasm.Plugin.Metrics.Averages.{Tracks, replay, replay-Tracks}
use dragonfly_wasm.Plugin.Metrics.Counts.{IsCounted}
use dragonfly_wasm.Plugin.State.{state_string}

abbrev old : Version
old = record { major = pos 1; minor = pos 2; patch = pos 9 }

abbrev new : Version
new = record { major = pos 1; minor = pos 10; patch = pos 0 }

compare-run : compare old new ≡ negsuc 0
unfolding compare
compare-run = refl

abbrev named : String → Manifest
named id = record {
  id = id;
  name = "Greeter";
  version = new;
  description = "";
  authors = [];
  website = "";
  license = "MIT";
  api_version = old;
  entry_point = "plugin.wasm";
  events =
      record { event = "player_join"; priority = pos 100; ignore_cancelled = false }
      ∷ record { event = "player_join"; priority = pos 200; ignore_cancelled = true }
      ∷ [];
  dependencies = [];
  limits = default_resource_limits;
  load_before = [];
  load_after = [];
}

abbrev greeter : Manifest
greeter = named "com.example"

greeter-accepted : validate greeter ≡ none
unfolding validate dragonfly_wasm.Plugin.Regex.matches
greeter-accepted = refl

no_dot-refused : validate (named "example") ≡ some (invalid_id "example")
unfolding validate dragonfly_wasm.Plugin.Regex.matches
no_dot-refused = refl

path-refused : validate (named "com/../x.y") ≡ some (invalid_id "com/../x.y")
unfolding validate dragonfly_wasm.Plugin.Regex.matches
path-refused = refl

no_entry-refused : validate (record greeter { entry_point = "" }) ≡ some entry_point_required
unfolding validate dragonfly_wasm.Plugin.Regex.matches
no_entry-refused = refl

validate-accepts_example : (validate greeter ≡ none) ↔ (
    Matches plugin_id_regex (codes greeter.id) × (greeter.name ≢ "") × (greeter.entry_point ≢ ""))
validate-accepts_example = validate-accepts greeter

validate-id_safe_example :
    All (λ c. is_id_char c ≡ true) (codes greeter.id)
    × ((c : ℕ) × (rest : List ℕ) × (is_lower c ≡ true) × (codes greeter.id ≡ c ∷ rest))
validate-id_safe_example = validate-id_safe greeter greeter-accepted

join_priority : get_event_priority greeter "player_join" ≡ pos 100
unfolding get_event_priority
join_priority = refl

abbrev durations : List ℕ
durations = 30 ∷ 20 ∷ 11 ∷ []

replay-Tracks_example : (m : Metrics) × (replay durations ≡ some m) × Tracks durations m
replay-Tracks_example = replay-Tracks durations (omega arith) (omega arith)

new_metrics-IsCounted : IsCounted new_metrics
new_metrics-IsCounted = record { cancelled_le = λ e. omega arith; peak_bounds = omega arith }

enabled-name : state_string (pos 4) ≡ some "enabled"
unfolding state_string
enabled-name = refl

negative-panics : state_string (negsuc 0) ≡ none
unfolding state_string
negative-panics = refl
