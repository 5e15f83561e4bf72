-- ===== src/Plugin/Metrics.antt =====
-- pkg/plugin/state.go: `Metrics`. Counters are uint64 and wrap; durations are int64 nanoseconds.
-- The locks order the calls, which the model takes one after the other.
pub mod Averages
pub mod Counts
use dragonfly_wasm.Prelude.{
  ℕ, ◌+◌, ◌%◌, ◌^◌, String, Bool, Option, none, some, [], ltb, if◌then◌else◌, GoMap, get, put,
  value_or,
}
use dragonfly_wasm.Prelude.Int.{ℤ, pos, ◌+ℤ◌, ltb_ℤ, wrap_int, of_word, div_int, int_mod}
use dragonfly_wasm.Plugin.Manifest.{EventType}

pub record Metrics : Type 0 where
  pub total_calls : ℕ
  pub total_execution_time : ℤ
  pub average_execution_time : ℤ
  pub max_execution_time : ℤ
  pub last_execution_time : ℤ
  pub memory_usage_bytes : ℕ
  pub peak_memory_bytes : ℕ
  pub events_handled : GoMap ℕ
  pub events_cancelled : GoMap ℕ
  pub error_count : ℕ
  pub last_error : String
  pub last_error_time : ℤ

abbrev pub new_metrics : Metrics
new_metrics = record {
  total_calls = 0;
  total_execution_time = pos 0;
  average_execution_time = pos 0;
  max_execution_time = pos 0;
  last_execution_time = pos 0;
  memory_usage_bytes = 0;
  peak_memory_bytes = 0;
  events_handled = [];
  events_cancelled = [];
  error_count = 0;
  last_error = "";
  last_error_time = pos 0;
}

-- n++ on a uint64.
abbrev pub incr : ℕ → ℕ
incr n = (n + 1) % int_mod

-- m[k]++ on a map of uint64.
unfoldable pub bump : GoMap ℕ → String → GoMap ℕ
bump m k = put m k (incr (value_or (get m k) 0))

with_average : Metrics → Option ℤ → Option Metrics
with_average m none = none
with_average m (some average) = some (record m { average_execution_time = average })

-- `none` is the panic of the division, when the call counter is back at 0.
unfoldable pub record_call : Metrics → ℤ → Option Metrics
unfolding with_average
record_call m duration =
    let calls = incr m.total_calls in
    let total = wrap_int (m.total_execution_time +ℤ duration) in
    let longest = if ltb_ℤ m.max_execution_time duration then duration else m.max_execution_time in
    let m' = record m {
      total_calls = calls;
      total_execution_time = total;
      last_execution_time = duration;
      max_execution_time = longest;
    } in
    with_average m' (div_int total (of_word calls))

unfoldable pub record_event : Metrics → EventType → Bool → Metrics
record_event m event cancelled = record m {
  events_handled = bump m.events_handled event;
  events_cancelled = if cancelled then bump m.events_cancelled event else m.events_cancelled;
}

-- `now` is the clock's answer, and the error is given by its text.
unfoldable pub record_error : Metrics → String → ℤ → Metrics
record_error m err now = record m {
  error_count = incr m.error_count;
  last_error = err;
  last_error_time = now;
}

unfoldable pub record_memory : Metrics → ℕ → Metrics
record_memory m bytes = record m {
  memory_usage_bytes = bytes;
  peak_memory_bytes = if ltb m.peak_memory_bytes bytes then bytes else m.peak_memory_bytes;
}
