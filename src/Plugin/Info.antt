-- ===== src/Plugin/Info.antt =====
-- pkg/plugin/state.go: `Info`. Times are nanoseconds; 0 stands for the zero time.
use dragonfly_wasm.Prelude.{String}
use dragonfly_wasm.Prelude.Int.{ℤ, pos}
use dragonfly_wasm.Plugin.Manifest.{Manifest}
use dragonfly_wasm.Plugin.Metrics.{Metrics, new_metrics}
use dragonfly_wasm.Plugin.State.{State, unloaded}

pub record Info : Type 0 where
  pub manifest : Manifest
  pub state : State
  pub metrics : Metrics
  pub loaded_at : ℤ
  pub enabled_at : ℤ
  pub disabled_at : ℤ
  pub data_path : String
  pub wasm_path : String

abbrev pub new_info : Manifest → String → String → Info
new_info manifest wasm_path data_path = record {
  manifest = manifest;
  state = unloaded;
  metrics = new_metrics;
  loaded_at = pos 0;
  enabled_at = pos 0;
  disabled_at = pos 0;
  data_path = data_path;
  wasm_path = wasm_path;
}
