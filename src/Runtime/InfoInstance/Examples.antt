-- ===== src/Runtime/InfoInstance/Examples.antt =====
-- Runs of an instance of the pool, and its theorems at concrete inputs.
use dragonfly_wasm.Prelude.{
  ℕ, ◌+◌, String, ◌≡◌, ◌≢◌, refl, Bool, true, false, Option, none, some, [], if◌then◌else◌,
}
use dragonfly_wasm.Prelude.Int.{ℤ, pos}
use dragonfly_wasm.Config.{default_config}
use dragonfly_wasm.Plugin.State.{loaded, enabled, error}
use dragonfly_wasm.Plugin.Metrics.{record_call}
use dragonfly_wasm.Plugin.Info.{new_info}
use dragonfly_wasm.Manager.Wasm.{Wasm, created, done}
use dragonfly_wasm.Manager.LifecycleExamples.{greeter}
use dragonfly_wasm.Runtime.InfoInstance.{
  Instance, panicked, wrong_state, call, enable, disable, close, new_instance,
}
use dragonfly_wasm.Runtime.InfoInstance.States.{
  here, next, enables, closes, is_settled, is_unloaded, Reach-settled,
}
use dragonfly_wasm.Runtime.InfoInstance.Counts.{Counted, call-Counted}

-- Every call with a timeout takes too long, and every callback fails when `fails` is true.
abbrev slow : Bool → Wasm String ℕ
slow fails = record {
  mkdir_all = λ path w. (none, w);
  new_plugin = λ path pages w. (created path, w);
  function_exists = λ i name. true;
  call = λ i name input w. (record { output = []; err = (if fails then some "trap" else none) }, w);
  call_within = λ timeout i name input w. (done "context deadline exceeded", w + 100);
  close = λ i w. w;
  now = λ w. (pos w, w);
  since = λ start w. (pos 100, w);
  expired = λ timeout w. true;
  join = λ path name. name;
}

-- The context of the caller is never over.
abbrev alive : ℕ → Option String
alive w = none

abbrev fresh : Instance String
fresh = record {
  info = record (new_info greeter "greeter.wasm" "greeter") { state = loaded };
  plugin = "greeter.wasm";
  config = default_config;
  last_call = pos 0;
  call_count = 0;
  error_count = 0;
}

made-run :
    (new_instance {I = String} {W = ℕ}
      (new_info greeter "greeter.wasm" "greeter")
      default_config
      (created "greeter.wasm", 3)).0
    ≡ none
unfolding new_instance
made-run = refl

enabled-run : (enable (slow false) fresh 3).1.info.state ≡ enabled
unfolding enable
enabled-run = refl

failed-run : (enable (slow true) fresh 3).1.info.state ≡ error
unfolding enable
failed-run = refl

disabled-early-run : (disable (slow false) fresh 3).0 ≡ some (wrong_state loaded)
unfolding disable
disabled-early-run = refl

-- Also an instance that is closed is called.
closed-called-run :
    (call (slow false) alive (close (slow false) fresh 3).0 "on_chat" [] 3).0 ≡ panicked
unfolding call close
closed-called-run = refl

has_room : (time : ℤ) → record_call fresh.info.metrics time ≢ none
unfolding record_call
has_room time = λ e. cc

call-Counted_example :
    Counted fresh
      (call (slow false) alive fresh "on_chat" [] 3).1
      (call (slow false) alive fresh "on_chat" [] 3).0
call-Counted_example = call-Counted (slow false) alive fresh "on_chat" [] 3 has_room

Reach-settled_example :
    let last = (close (slow true) (enable (slow true) fresh 3).1 4).0 in
    (is_settled fresh.info.state ≡ true → is_settled last.info.state ≡ true)
    × (is_unloaded fresh.info.state ≡ true → is_unloaded last.info.state ≡ true)
Reach-settled_example =
    Reach-settled (slow true) alive
      (next (next here (enables fresh 3)) (closes (enable (slow true) fresh 3).1 4))
