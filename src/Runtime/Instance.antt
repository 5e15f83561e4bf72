-- ===== src/Runtime/Instance.antt =====
-- internal/runtime/runtime.go: `PluginInstance` and its metrics, with the states of
-- pkg/types/types.go. `I` is the type of extism's instances and `M` that of the manifests, which
-- no operation here reads.
pub mod Calls
mod Examples
use dragonfly_wasm.Prelude.{
  ℕ, String, Bool, true, false, not, ◌&&◌, Option, none, some, List, [], ◌∷◌, ◌==◌, if◌then◌else◌,
}
use dragonfly_wasm.Prelude.Int.{ℤ, pos, ◌+ℤ◌, wrap_int, of_word, div_int}
use dragonfly_wasm.Plugin.Metrics.{incr}
use dragonfly_wasm.Plugin.State.{enum_string}
use dragonfly_wasm.Manager.Wasm.{Wasm, CallResult, Answer, done, result}

pub data PluginState : Type 0 where
  unloaded loading loaded enabled disabled error : PluginState

abbrev pub plugin_state_names : List String
plugin_state_names = "unloaded" ∷ "loading" ∷ "loaded" ∷ "enabled" ∷ "disabled" ∷ "error" ∷ []

-- `PluginState.String`, on any value of the underlying `int`; `none` is a panic.
unfoldable pub plugin_state_string : ℤ → Option String
plugin_state_string = enum_string plugin_state_names

-- s == StateEnabled
abbrev pub is_state_enabled : PluginState → Bool
is_state_enabled enabled = true
is_state_enabled _ = false

abbrev pub is_state_loaded : PluginState → Bool
is_state_loaded loaded = true
is_state_loaded _ = false

abbrev pub is_state_disabled : PluginState → Bool
is_state_disabled disabled = true
is_state_disabled _ = false

pub record PluginMetrics : Type 0 where
  pub events_processed : ℕ
  pub total_processing_time : ℤ
  pub errors : ℕ
  pub last_event_time : ℤ

abbrev pub new_plugin_metrics : PluginMetrics
new_plugin_metrics = record {
  events_processed = 0;
  total_processing_time = pos 0;
  errors = 0;
  last_event_time = pos 0;
}

-- `now` is the clock's answer.
unfoldable pub record_success : PluginMetrics → ℤ → ℤ → PluginMetrics
record_success m duration now = record {
  events_processed = incr m.events_processed;
  total_processing_time = wrap_int (m.total_processing_time +ℤ duration);
  errors = m.errors;
  last_event_time = now;
}

unfoldable pub record_failure : PluginMetrics → PluginMetrics
record_failure m = record m { errors = incr m.errors }

-- `none` would be the panic of the division.
unfoldable pub average_processing_time : PluginMetrics → Option ℤ
average_processing_time m =
    if m.events_processed == 0
    then some (pos 0)
    else div_int m.total_processing_time (of_word m.events_processed)

pub record PluginInstance (I M : Type 0) : Type 0 where
  pub id : String
  pub manifest : M
  pub plugin : I
  pub state : PluginState
  pub loaded_at : ℤ
  pub metrics : PluginMetrics

-- The two results of `Call`: its output or a `PluginError`.
pub data Outcome : Type 0 where
  output : List ℕ → Outcome
  not_enabled timed_out : Outcome
  call_failed : (err : String) → Outcome

module _ {I M : Type 0} where
  unfoldable pub enable : PluginInstance I M → PluginInstance I M
  enable p =
      if not (is_state_loaded p.state) && not (is_state_disabled p.state)
      then p
      else record p { state = enabled }

  unfoldable pub disable : PluginInstance I M → PluginInstance I M
  disable p = if is_state_enabled p.state then record p { state = disabled } else p

module _ {I M W : Type 0} (env : Wasm I W) where
  -- Behind a call without an error.
  succeeded :
      PluginInstance I M → ℤ → CallResult → Option String → W → Outcome × PluginInstance I M × W
  succeeded p start r (some err) w =
      (call_failed err, record p { metrics = record_failure p.metrics }, w)
  succeeded p start r none w =
      let (time, w1) = env.since start w in
      let (now, w2) = env.now w1 in
      (output r.output, record p { metrics = record_success p.metrics time now }, w2)

  -- Behind the `select`.
  selected : PluginInstance I M → ℤ → Answer → W → Outcome × PluginInstance I M × W
  unfolding succeeded
  selected p start (done err) w = (timed_out, record p { metrics = record_failure p.metrics }, w)
  selected p start (result r) w = succeeded p start r r.err w

  unfoldable pub call :
      PluginInstance I M → String → List ℕ → ℤ → W → Outcome × PluginInstance I M × W
  unfolding selected
  call p function input timeout w =
      if not (is_state_enabled p.state) && not (is_state_loaded p.state)
      then (not_enabled, p, w)
      else (let (start, w1) = env.now w in
          let (answer, w2) = env.call_within timeout p.plugin function input w1 in
          selected p start answer w2)
