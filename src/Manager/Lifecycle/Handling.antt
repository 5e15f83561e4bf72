-- ===== src/Manager/Lifecycle/Handling.antt =====
-- internal/manager/manager.go: `createEventHandler` and `parseEventResult`.
use Prim.Native.String.{◌++◌ as string_append}
use dragonfly_wasm.Prelude.{
  ℕ, String, false, not, ◌&&◌, Option, none, some, List, [], ◌∷◌, ◌++◌, ◌==◌, if◌then◌else◌,
}
use dragonfly_wasm.Prelude.Int.{ℤ}
use dragonfly_wasm.Prelude.Heap.{get_elem?, set_elem}
use dragonfly_wasm.Prelude.Bytes.{bytes}
use dragonfly_wasm.Config.{Config, get_effective_limits}
use dragonfly_wasm.Plugin.State.{is_enabled, is_loaded}
use dragonfly_wasm.Plugin.Metrics.{Metrics, record_call, record_error, record_event}
use dragonfly_wasm.Events.{EventResult, HandlerReturn, returned, failed}
use dragonfly_wasm.Manager.Wasm.{Wasm, CallResult, Answer, done, result}
use dragonfly_wasm.Manager.Lifecycle.{LoadedPlugin, Handler, milliseconds}

-- Result.Cancelled = data[0] == 1
unfoldable pub parse_event_result : List ℕ → EventResult
parse_event_result [] = record { cancelled = false; modifications = []; error = "" }
parse_event_result (b ∷ output) = record { cancelled = b == 1; modifications = []; error = "" }

-- The metrics behind `RecordCall`, whose division panics at the 2^64th call only; no plugin gets
-- that far, and the model then keeps the metrics.
abbrev recorded : Metrics → Option Metrics → Metrics
recorded old none = old
recorded old (some new) = new

-- The heap and the world.
abbrev pub Store : Type 0 → Type 0 → Type 0
Store I W = List (LoadedPlugin I) × W

abbrev pub with_metrics : {I : Type 0} → LoadedPlugin I → Metrics → LoadedPlugin I
with_metrics p metrics = record {
  info = record p.info { metrics = metrics };
  instance = p.instance;
}

module _ {I W : Type 0} (env : Wasm I W) (config : Config) where
  -- Behind a call without an error.
  unfoldable pub handled :
      Handler → LoadedPlugin I → Metrics → CallResult → Store I W → HandlerReturn × Store I W
  unfolding parse_event_result
  handled h p metrics r (heap, w) =
      let event_result = parse_event_result r.output in
      (
        returned (some event_result),
        (
          set_elem heap h.plugin
              (with_metrics p (record_event metrics h.event event_result.cancelled)),
          w,
        ),
      )

  -- Behind a call that ended.
  unfoldable pub ended :
      Handler
      → LoadedPlugin I
      → Metrics
      → CallResult
      → Option String
      → Store I W
      → HandlerReturn × Store I W
  unfolding handled
  ended h p metrics r none s = handled h p metrics r s
  ended h p metrics r (some err) (heap, w) =
      let (time, w') = env.now w in
      (failed err, (set_elem heap h.plugin (with_metrics p (record_error metrics err time)), w'))

  -- Behind the `select`.
  unfoldable pub answered :
      Handler → LoadedPlugin I → ℤ → Answer → Store I W → HandlerReturn × Store I W
  unfolding ended
  answered h p start (done err) (heap, w) =
      let (time, w') = env.now w in
      (
        failed (string_append "handler timeout for " h.event),
        (set_elem heap h.plugin (with_metrics p (record_error p.info.metrics err time)), w'),
      )
  answered h p start (result r) (heap, w) =
      let (time, w') = env.since start w in
      ended h p (recorded p.info.metrics (record_call p.info.metrics time)) r r.err (heap, w')

  unfoldable pub run_handler :
      Handler → LoadedPlugin I → List ℕ → Store I W → HandlerReturn × Store I W
  unfolding answered
  run_handler h p data_bytes (heap, w) =
      let limits = get_effective_limits config p.info.manifest.limits in
      let (start, w1) = env.now w in
      let (answer, w2) =
        env.call_within (milliseconds limits.max_execution_ms) p.instance "handle_event"
          (bytes h.event ++ 0 ∷ data_bytes) w1 in
      answered h p start answer (heap, w2)

  unfoldable pub handle_pointed :
      Handler → List ℕ → Option (LoadedPlugin I) → Store I W → HandlerReturn × Store I W
  unfolding run_handler
  handle_pointed h data_bytes none s = (returned none, s)
  handle_pointed h data_bytes (some p) s =
      if not (is_enabled p.info.state) && not (is_loaded p.info.state)
      then (returned none, s)
      else run_handler h p data_bytes s

  -- The function that `createEventHandler` returns. Every handler's plugin is on the heap.
  unfoldable pub handle : Handler → List ℕ → Store I W → HandlerReturn × Store I W
  unfolding handle_pointed
  handle h data_bytes (heap, w) = handle_pointed h data_bytes (get_elem? heap h.plugin) (heap, w)
