-- ===== src/Runtime/InfoInstance.antt =====
-- internal/runtime/instance.go: `Instance`. The `Info` behind its pointer is a part of it here;
-- logging is left out. A call can panic, and is a value of `CallEnd` then.
pub mod States
pub mod Counts
mod Examples
use Prim.Native.String.{◌++◌ as string_append}
use dragonfly_wasm.Prelude.{
  ℕ, String, Bool, true, false, not, ◌&&◌, Option, none, some, List, [], ◌∷◌, if◌then◌else◌,
}
use dragonfly_wasm.Prelude.Int.{ℤ, pos}
use dragonfly_wasm.Config.{Config, get_effective_limits}
use dragonfly_wasm.Plugin.Manifest.{EventType, subscribed_to}
use dragonfly_wasm.Plugin.State.{
  State, unloaded, enabling, enabled, disabling, disabled, error, is_enabled, is_loaded,
  is_disabled,
}
use dragonfly_wasm.Plugin.Info.{Info}
use dragonfly_wasm.Plugin.Metrics.{Metrics, incr, record_call, record_error, record_event}
use dragonfly_wasm.Events.{EventResult}
use dragonfly_wasm.Manager.Wasm.{Wasm, Created, created, refused, CallResult, Answer, done, result}
use dragonfly_wasm.Manager.Lifecycle.{milliseconds}
use dragonfly_wasm.Manager.Lifecycle.Handling.{parse_event_result}

pub record Instance (I : Type 0) : Type 0 where
  pub info : Info
  pub plugin : I
  pub config : Config
  pub last_call : ℤ
  pub call_count : ℕ
  pub error_count : ℕ

-- The two results of `NewInstance`. `create` is `extism.NewPlugin` of the bytes with the host
-- functions of an ID.
unfoldable pub new_instance :
    {I W : Type 0} → Info → Config → Created I × W → Option String × Option (Instance I) × W
new_instance info cfg (refused e, w) = (some e, none, w)
new_instance info cfg (created plugin, w) = (
  none,
  some (record {
    info = info;
    plugin = plugin;
    config = cfg;
    last_call = pos 0;
    call_count = 0;
    error_count = 0;
  }),
  w,
)

pub data CallEnd (A : Type 0) : Type 0 where
  value : A → CallEnd A
  timed_out : CallEnd A
  failed : (err : String) → CallEnd A
  panicked : CallEnd A

abbrev pub with_metrics : {I : Type 0} → Instance I → Metrics → Instance I
with_metrics i metrics = record i { info = record i.info { metrics = metrics } }

abbrev pub with_state : {I : Type 0} → Instance I → State → Instance I
with_state i s = record i { info = record i.info { state = s } }

-- `RecordError(nil)` panics at the error's text, behind the counting.
unfoldable pub record_nil_error : Metrics → Metrics
record_nil_error m = record m { error_count = incr m.error_count }

module _ {I W : Type 0} (env : Wasm I W) (outer_err : W → Option String) where
  -- Behind a call that took too long: `outer_err` is the error of the caller's context.
  unfoldable pub call_late : Instance I → Option String → W → CallEnd (List ℕ) × Instance I × W
  unfolding record_nil_error
  call_late i none w = (
    panicked,
    with_metrics (record i { error_count = incr i.error_count }) (record_nil_error i.info.metrics),
    w,
  )
  call_late i (some e) w =
      let (now, w') = env.now w in
      (
        timed_out,
        with_metrics (record i { error_count = incr i.error_count })
            (record_error i.info.metrics e now),
        w',
      )

  -- Behind a call that ended, with its error.
  unfoldable pub call_returned :
      Instance I → List ℕ → Option String → Metrics → W → CallEnd (List ℕ) × Instance I × W
  call_returned i output none metrics w = (value output, with_metrics i metrics, w)
  call_returned i output (some e) metrics w =
      let (now, w') = env.now w in
      (
        failed e,
        with_metrics (record i { error_count = incr i.error_count }) (record_error metrics e now),
        w',
      )

  -- `RecordCall` panics at its division when its counter is back at 0; the metrics are kept then.
  unfoldable pub call_recorded :
      Instance I → CallResult → Option Metrics → W → CallEnd (List ℕ) × Instance I × W
  unfolding call_returned
  call_recorded i r none w = (panicked, i, w)
  call_recorded i r (some metrics) w = call_returned i r.output r.err metrics w

  unfoldable pub call_answered : Instance I → ℤ → Answer → W → CallEnd (List ℕ) × Instance I × W
  unfolding call_late call_recorded
  call_answered i start (done e) w = call_late i (outer_err w) w
  call_answered i start (result r) w =
      let (time, w') = env.since start w in call_recorded i r (record_call i.info.metrics time) w'

  abbrev pub started : Instance I → ℤ → Instance I
  started i start = record i { last_call = start; call_count = incr i.call_count }

  -- The timeout of a call.
  abbrev pub call_timeout : Instance I → ℤ
  call_timeout i =
      milliseconds (get_effective_limits i.config i.info.manifest.limits).max_execution_ms

  unfoldable pub call : Instance I → String → List ℕ → W → CallEnd (List ℕ) × Instance I × W
  unfolding call_answered
  call i func_name input w =
      let (start, w1) = env.now w in
      let i1 = started i start in
      let (answer, w2) = env.call_within (call_timeout i) i.plugin func_name input w1 in
      call_answered i1 start answer w2

  unfoldable pub event_called :
      EventType → CallEnd (List ℕ) × Instance I × W → CallEnd (Option EventResult) × Instance I × W
  unfolding parse_event_result
  event_called event (value output, i, w) =
      let event_result = parse_event_result output in
      (
        value (some event_result),
        with_metrics i (record_event i.info.metrics event event_result.cancelled),
        w,
      )
  event_called event (timed_out, i, w) = (timed_out, i, w)
  event_called event (failed e, i, w) = (failed e, i, w)
  event_called event (panicked, i, w) = (panicked, i, w)

  unfoldable pub handle_event :
      Instance I → EventType → List ℕ → W → CallEnd (Option EventResult) × Instance I × W
  unfolding event_called
  handle_event i event bytes w =
      if not (subscribed_to i.info.manifest event)
      then (value none, i, w)
      else event_called event (call i (string_append "on_" event) bytes w)

pub data StateError : Type 0 where
  wrong_state : State → StateError
  callback_failed : (err : String) → StateError

module _ {I W : Type 0} (env : Wasm I W) where
  -- The optional call of a callback: its error, if any.
  unfoldable pub callback : String → Instance I → W → Option String × W
  callback name i w =
      if env.function_exists i.plugin name
      then (let (r, w') = env.call i.plugin name [] w in (r.err, w'))
      else (none, w)

  unfoldable pub enable_called : Instance I → Option String × W → Option StateError × Instance I × W
  enable_called i (some e, w) = (some (callback_failed e), with_state i error, w)
  enable_called i (none, w) =
      let (now, w') = env.now w in
      (none, record i { info = record i.info { state = enabled; enabled_at = now } }, w')

  unfoldable pub enable : Instance I → W → Option StateError × Instance I × W
  unfolding callback enable_called
  enable i w =
      if not (is_loaded i.info.state) && not (is_disabled i.info.state)
      then (some (wrong_state i.info.state), i, w)
      else enable_called (with_state i enabling) (callback "on_enable" i w)

  -- The error of the callback is logged.
  unfoldable pub disable_called :
      Instance I → Option String × W → Option StateError × Instance I × W
  disable_called i (e, w) =
      let (now, w') = env.now w in
      (none, record i { info = record i.info { state = disabled; disabled_at = now } }, w')

  unfoldable pub disable : Instance I → W → Option StateError × Instance I × W
  unfolding callback disable_called
  disable i w =
      if not (is_enabled i.info.state)
      then (some (wrong_state i.info.state), i, w)
      else disable_called (with_state i disabling) (callback "on_disable" i w)

  unfoldable pub shut_down : Instance I → Option String × W → Instance I × W
  shut_down i (e, w) = (with_state i unloaded, env.close i.plugin w)

  unfoldable pub close : Instance I → W → Instance I × W
  unfolding callback shut_down
  close i w =
      if is_enabled i.info.state
      then shut_down (with_state i disabling) (callback "on_disable" i w)
      else shut_down i (none, w)
