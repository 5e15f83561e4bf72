-- ===== src/Plugin/Metrics/Counts.antt =====
-- The event counters and the memory peak of `Metrics`.
use dragonfly_wasm.Prelude.{
  ℕ, ◌+◌, ◌≤◌, ◌<◌, String, ◌≡◌, Bool, ◌&&◌, arith, str_eq, eq_iff, if◌then◌else◌, GoMap, get,
  get-put, value_or,
}
use dragonfly_wasm.Prelude.Int.{int_mod}
use dragonfly_wasm.Plugin.Manifest.{EventType}
use dragonfly_wasm.Plugin.Metrics.{Metrics, bump, incr, record_event, record_memory}

abbrev pub count_of : GoMap ℕ → String → ℕ
count_of m k = value_or (get m k) 0

pub count_of-bump :
    (m : GoMap ℕ) (k j : String)
    → count_of (bump m k) j ≡ (if str_eq k j then incr (count_of m k) else count_of m j)
unfolding bump
count_of-bump m k j = rw get-put (ground arith)

-- Events were cancelled at most as often as they were handled; the memory peak is a bound.
pub record IsCounted (m : Metrics) : Type 0 where
  pub cancelled_le : (e : EventType) → count_of m.events_cancelled e ≤ count_of m.events_handled e
  pub peak_bounds : m.memory_usage_bytes ≤ m.peak_memory_bytes

-- `RecordEvent` counts the event, and its cancellation if it was cancelled, changes the counters
-- of no other event, and keeps cancellations within handled events, unless the counter of handled
-- events is about to wrap.
pub record_event-IsCounted :
    (m : Metrics) (event other : EventType) (cancelled : Bool)
    → IsCounted m
    → count_of m.events_handled event + 1 < int_mod
    → IsCounted (record_event m event cancelled)
      × (count_of (record_event m event cancelled).events_handled other
          ≡ count_of m.events_handled other + (if str_eq event other then 1 else 0))
      × (count_of (record_event m event cancelled).events_cancelled other
          ≡ count_of m.events_cancelled other + (if cancelled && str_eq event other then 1 else 0))
unfolding record_event
record_event-IsCounted m event other cancelled v room = (
  record {
    cancelled_le = λ e. ground (
      arith,
      count_of-bump m.events_handled event e,
      count_of-bump m.events_cancelled event e,
      v.cancelled_le e,
      v.cancelled_le event,
      eq_iff event e,
    );
    peak_bounds = v.peak_bounds;
  },
  ground (arith, count_of-bump m.events_handled event other, eq_iff event other),
  ground (
    arith,
    count_of-bump m.events_cancelled event other,
    eq_iff event other,
    v.cancelled_le event,
  ),
)

-- `RecordMemory` keeps the peak a bound of the usage, and never lowers it.
pub record_memory-peak :
    (m : Metrics) (bytes : ℕ)
    → IsCounted m
    → IsCounted (record_memory m bytes)
      × (m.peak_memory_bytes ≤ (record_memory m bytes).peak_memory_bytes)
      × (bytes ≤ (record_memory m bytes).peak_memory_bytes)
unfolding record_memory
record_memory-peak m bytes v = (
  record { cancelled_le = v.cancelled_le; peak_bounds = ground arith },
  ground arith,
  ground arith,
)
