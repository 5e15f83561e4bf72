-- ===== src/Runtime/Instance/Calls.antt =====
-- What a call counts, and the average time of the calls.
use dragonfly_wasm.Prelude.{
  ℕ, ◌/◌, ◌<◌, String, ◌≡◌, refl, inl, inr, Bool-cases, Bool, true, false, not, ◌&&◌, Option, none,
  some, List, [], ◌∷◌, length, arith, if◌then◌else◌,
}
use dragonfly_wasm.Prelude.Int.{ℤ, pos, int_half}
use dragonfly_wasm.Plugin.Metrics.{incr}
use dragonfly_wasm.Plugin.Metrics.Averages.{sum}
use dragonfly_wasm.Manager.Wasm.{Wasm, CallResult, Answer, done, result}
use dragonfly_wasm.Runtime.Instance.{
  PluginMetrics, new_plugin_metrics, record_success, record_failure, average_processing_time,
  PluginInstance, Outcome, output, not_enabled, timed_out, call_failed, is_state_enabled,
  is_state_loaded, succeeded, selected, call,
}

abbrev pub is_output : Outcome → Bool
is_output (output b) = true
is_output not_enabled = false
is_output timed_out = false
is_output (call_failed err) = false

abbrev pub is_failure : Outcome → Bool
is_failure (output b) = false
is_failure not_enabled = false
is_failure timed_out = true
is_failure (call_failed err) = true

-- What one call counts: outputs as processed events, failures as errors.
pub record Counts {I M : Type 0} (p p' : PluginInstance I M) (o : Outcome) : Type 0 where
  pub state : p'.state ≡ p.state
  pub processed :
      p'.metrics.events_processed
      ≡ (if is_output o then incr p.metrics.events_processed else p.metrics.events_processed)
  pub failures :
      p'.metrics.errors ≡ (if is_failure o then incr p.metrics.errors else p.metrics.errors)

module _ {I M W : Type 0} (env : Wasm I W) where
  succeeded-Counts :
      (p : PluginInstance I M) (start : ℤ) (r : CallResult) (err : Option String) (w : W)
      → Counts p (succeeded env p start r err w).1 (succeeded env p start r err w).0
  unfolding succeeded record_success record_failure
  succeeded-Counts p start r none w = record { state = refl; processed = refl; failures = refl }
  succeeded-Counts p start r (some err) w = record {
    state = refl;
    processed = refl;
    failures = refl;
  }

  selected-Counts :
      (p : PluginInstance I M) (start : ℤ) (answer : Answer) (w : W)
      → Counts p (selected env p start answer w).1 (selected env p start answer w).0
  unfolding selected record_failure
  selected-Counts p start (done err) w = record { state = refl; processed = refl; failures = refl }
  selected-Counts p start (result r) w = succeeded-Counts p start r r.err w

  succeeded-id :
      (p : PluginInstance I M) (start : ℤ) (r : CallResult) (err : Option String) (w : W)
      → (succeeded env p start r err w).1.id ≡ p.id
  unfolding succeeded
  succeeded-id p start r none w = refl
  succeeded-id p start r (some err) w = refl

  selected-id :
      (p : PluginInstance I M) (start : ℤ) (answer : Answer) (w : W)
      → (selected env p start answer w).1.id ≡ p.id
  unfolding selected
  selected-id p start (done err) w = refl
  selected-id p start (result r) w = succeeded-id p start r r.err w

  pub call-id :
      (p : PluginInstance I M) (function : String) (input : List ℕ) (timeout : ℤ) (w : W)
      → (call env p function input timeout w).1.id ≡ p.id
  unfolding call
  call-id p function input timeout w =
      elim (Bool-cases (not (is_state_enabled p.state) && not (is_state_loaded p.state))) [
        | inl off ↦ rw off refl
        | inr on ↦ rw on (selected-id p _ _ _)
      ]

  succeeded-counted :
      (p : PluginInstance I M) (start : ℤ) (r : CallResult) (err : Option String) (w : W)
      → (not (is_output (succeeded env p start r err w).0)
          && not (is_failure (succeeded env p start r err w).0))
        ≡ false
  unfolding succeeded
  succeeded-counted p start r none w = refl
  succeeded-counted p start r (some err) w = refl

  selected-counted :
      (p : PluginInstance I M) (start : ℤ) (answer : Answer) (w : W)
      → (not (is_output (selected env p start answer w).0)
          && not (is_failure (selected env p start answer w).0))
        ≡ false
  unfolding selected
  selected-counted p start (done err) w = refl
  selected-counted p start (result r) w = succeeded-counted p start r r.err w

  -- A call never changes the state of an instance. It counts one processed event when it gives an
  -- output, one error when it times out or fails, and nothing when the instance is neither enabled
  -- nor loaded, and then only.
  pub call-Counts :
      (p : PluginInstance I M) (function : String) (input : List ℕ) (timeout : ℤ) (w : W)
      → Counts p (call env p function input timeout w).1 (call env p function input timeout w).0
        × ((not (is_output (call env p function input timeout w).0)
              && not (is_failure (call env p function input timeout w).0))
            ≡ (not (is_state_enabled p.state) && not (is_state_loaded p.state)))
  unfolding call
  call-Counts p function input timeout w =
      by_state (not (is_state_enabled p.state) && not (is_state_loaded p.state))
    where
      by_state :
          (b : Bool)
          → let o =
              if b
              then (not_enabled, p, w)
              else (let (start, w1) = env.now w in
                  let (answer, w2) = env.call_within timeout p.plugin function input w1 in
                  selected env p start answer w2) in
            Counts p o.1 o.0 × ((not (is_output o.0) && not (is_failure o.0)) ≡ b)
      by_state true = (record { state = refl; processed = refl; failures = refl }, refl)
      by_state false =
          (let (start, w1) = env.now w in
            let (answer, w2) = env.call_within timeout p.plugin function input w1 in
            (selected-Counts p start answer w2, selected-counted p start answer w2))

-- Fresh metrics after successes with these durations, newest first, at these times.
pub replay_successes : List (ℕ × ℤ) → PluginMetrics
replay_successes [] = new_plugin_metrics
replay_successes ((d, now) ∷ ds) = record_success (replay_successes ds) (pos d) now

abbrev pub durations : List (ℕ × ℤ) → List ℕ
durations [] = []
durations ((d, now) ∷ ds) = d ∷ durations ds

replay_successes-totals :
    (ds : List (ℕ × ℤ))
    → length (durations ds) < int_half
    → sum (durations ds) < int_half
    → ((replay_successes ds).events_processed ≡ length (durations ds))
      × ((replay_successes ds).total_processing_time ≡ pos (sum (durations ds)))
unfolding replay_successes record_success
replay_successes-totals [] few short = (refl, refl)
replay_successes-totals ((d, now) ∷ ds) few short =
    let (processed, total) = replay_successes-totals ds (omega arith) (omega arith) in
    (ground arith, ground arith)

-- After any successes, whose number and total time fit their types, the average is the total time
-- over the number, rounded down; no division by 0 is made. Division by 0 is 0 on the right.
pub average-replay_successes :
    (ds : List (ℕ × ℤ))
    → length (durations ds) < int_half
    → sum (durations ds) < int_half
    → average_processing_time (replay_successes ds)
      ≡ some (pos (sum (durations ds) / length (durations ds)))
average-replay_successes ds few short =
    let (processed, total) = replay_successes-totals ds few short in
    averaged (replay_successes ds) (length (durations ds)) (sum (durations ds)) processed total few
      short (zero_sum ds)
  where
    zero_sum : (l : List (ℕ × ℤ)) → length (durations l) ≡ 0 → sum (durations l) ≡ 0
    zero_sum [] h = refl
    zero_sum ((d, now) ∷ l) h = absurd (omega arith)

    averaged :
        (m : PluginMetrics) (n total : ℕ)
        → m.events_processed ≡ n
        → m.total_processing_time ≡ pos total
        → n < int_half
        → total < int_half
        → (n ≡ 0 → total ≡ 0)
        → average_processing_time m ≡ some (pos (total / n))
    averaged m n total e f few short empty = unfold average_processing_time in ground arith
