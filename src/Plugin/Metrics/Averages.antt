-- ===== src/Plugin/Metrics/Averages.antt =====
-- The execution times that `RecordCall` keeps, against the list of the recorded durations.
use dragonfly_wasm.Prelude.{
  ℕ, ◌+◌, ◌/◌, ◌<◌, ◌≡◌, refl, Option, none, some, List, [], ◌∷◌, length, arith, ltb, if◌then◌else◌,
}
use dragonfly_wasm.Prelude.Int.{pos, int_half}
use dragonfly_wasm.Plugin.Metrics.{Metrics, new_metrics, record_call}

abbrev pub sum : List ℕ → ℕ
sum [] = 0
sum (d ∷ ds) = d + sum ds

abbrev pub maximum : List ℕ → ℕ
maximum [] = 0
maximum (d ∷ ds) = if ltb (maximum ds) d then d else maximum ds

abbrev pub last : List ℕ → ℕ
last [] = 0
last (d ∷ ds) = d

-- The times of the calls with these durations, newest first. Division by 0 is 0 in the model.
pub record Tracks (ds : List ℕ) (m : Metrics) : Type 0 where
  pub calls : m.total_calls ≡ length ds
  pub total : m.total_execution_time ≡ pos (sum ds)
  pub average : m.average_execution_time ≡ pos (sum ds / length ds)
  pub longest : m.max_execution_time ≡ pos (maximum ds)
  pub newest : m.last_execution_time ≡ pos (last ds)

new_metrics-Tracks : Tracks [] new_metrics
new_metrics-Tracks = record {
  calls = refl;
  total = refl;
  average = refl;
  longest = refl;
  newest = refl;
}

-- While the call count and the total time fit their types, recording one more call succeeds and
-- keeps the exact count, total, average (rounded down), maximum and last duration.
pub record_call-Tracks :
    (m : Metrics) (d : ℕ) (ds : List ℕ)
    → Tracks ds m
    → length (d ∷ ds) < int_half
    → sum (d ∷ ds) < int_half
    → (m' : Metrics) × (record_call m (pos d) ≡ some m') × Tracks (d ∷ ds) m'
unfolding record_call
record_call-Tracks m d ds t few short = (
  record m {
    total_calls = length (d ∷ ds);
    total_execution_time = pos (sum (d ∷ ds));
    average_execution_time = pos (sum (d ∷ ds) / length (d ∷ ds));
    max_execution_time = pos (maximum (d ∷ ds));
    last_execution_time = pos d;
  },
  ground arith,
  record { calls = refl; total = refl; average = refl; longest = refl; newest = refl },
)

and_record : Option Metrics → ℕ → Option Metrics
and_record none d = none
and_record (some m) d = record_call m (pos d)

-- A fresh `Metrics` after calls with these durations, newest first.
pub replay : List ℕ → Option Metrics
unfolding and_record
replay [] = some new_metrics
replay (d ∷ ds) = and_record (replay ds) d

-- Fresh metrics after any list of calls, whose number and total time fit their types, hold the
-- exact count, total, average (rounded down), maximum and last duration of that list.
pub replay-Tracks :
    (ds : List ℕ)
    → length ds < int_half
    → sum ds < int_half
    → (m : Metrics) × (replay ds ≡ some m) × Tracks ds m
unfolding replay
replay-Tracks [] few short = (new_metrics, refl, new_metrics-Tracks)
replay-Tracks (d ∷ ds) few short =
    let (m, e, t) = replay-Tracks ds (omega arith) (omega arith) in
    let (m', e', t') = record_call-Tracks m d ds t few short in (m', rw (e, and_record) e', t')
