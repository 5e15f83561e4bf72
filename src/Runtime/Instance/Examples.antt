-- ===== src/Runtime/Instance/Examples.antt =====
-- Runs of an instance, and its theorems at concrete inputs.
use dragonfly_wasm.Prelude.{ℕ, ◌+◌, String, ◌≡◌, refl, true, false, none, some, List, [], ◌∷◌}
use dragonfly_wasm.Prelude.Int.{ℤ, pos}
use dragonfly_wasm.Manager.Wasm.{Wasm, created, done}
use dragonfly_wasm.Runtime.Instance.{
  PluginInstance, loaded, new_plugin_metrics, enable, disable, call, timed_out, is_state_enabled,
  plugin_state_string,
}

-- Every call takes too long.
abbrev slow : Wasm String ℕ
slow = record {
  mkdir_all = λ path w. (none, w);
  new_plugin = λ path pages w. (created path, w);
  function_exists = λ i name. true;
  call = λ i name input w. (record { output = []; err = some "trap" }, w);
  call_within = λ timeout i name input w. (done "context deadline exceeded", w + 100);
  close = λ i w. w;
  now = λ w. (pos w, w);
  since = λ start w. (pos 100, w);
  expired = λ timeout w. true;
  join = λ path name. name;
}

abbrev fresh : PluginInstance String String
fresh = record {
  id = "com.example";
  manifest = "plugin.toml";
  plugin = "plugin.wasm";
  state = loaded;
  loaded_at = pos 0;
  metrics = new_plugin_metrics;
}

too-slow : (call slow (enable fresh) "handle_event" [] (pos 50) 0).0 ≡ timed_out
unfolding call enable
too-slow = refl

disabled-again : is_state_enabled (disable (enable fresh)).state ≡ false
unfolding enable disable
disabled-again = refl

loaded-name : plugin_state_string (pos 2) ≡ some "loaded"
unfolding plugin_state_string
loaded-name = refl

abbrev three_calls : List (ℕ × ℤ)
three_calls = (30, pos 9) ∷ (20, pos 5) ∷ (11, pos 1) ∷ []
