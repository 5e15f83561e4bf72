-- ===== src/Runtime/InfoInstance/Counts.antt =====
-- internal/runtime/instance.go: what a call counts.
use dragonfly_wasm.Prelude.{
  ℕ, String, ◌≡◌, ◌≢◌, refl, ◌∙◌, sym, ap, Bool, true, false, Option, none, some, List, arith,
  if◌then◌else◌,
}
use dragonfly_wasm.Prelude.Int.{ℤ}
use dragonfly_wasm.Plugin.Metrics.{Metrics, incr, record_call, record_error}
use dragonfly_wasm.Manager.Wasm.{Wasm, CallResult, Answer, done, result}
use dragonfly_wasm.Runtime.InfoInstance.{
  Instance, CallEnd, value, timed_out, failed, panicked, call, call_late, call_returned,
  call_recorded, call_answered, started, call_timeout, record_nil_error,
}

abbrev pub is_value : {A : Type 0} → CallEnd A → Bool
is_value (value a) = true
is_value timed_out = false
is_value (failed e) = false
is_value panicked = false

-- A call counts itself, and an error in the instance and in its metrics unless it gave a value.
pub record Counted {I : Type 0} (i j : Instance I) (r : CallEnd (List ℕ)) : Type 0 where
  pub calls : j.call_count ≡ incr i.call_count
  pub errors : j.error_count ≡ (if is_value r then i.error_count else incr i.error_count)
  pub metric :
      j.info.metrics.error_count
      ≡ (if is_value r then i.info.metrics.error_count else incr i.info.metrics.error_count)

record_call-error_count :
    (m m' : Metrics) (time : ℤ) → record_call m time ≡ some m' → m'.error_count ≡ m.error_count
unfolding record_call
record_call-error_count m m' time e = ground arith

module _ {I W : Type 0} (env : Wasm I W) (outer_err : W → Option String) where
  late-Counted :
      (i j : Instance I) (o : Option String) (w : W)
      → j.call_count ≡ incr i.call_count
      → j.error_count ≡ i.error_count
      → j.info ≡ i.info
      → Counted i (call_late env outer_err j o w).1 (call_late env outer_err j o w).0
  unfolding call_late record_nil_error record_error
  late-Counted i j none w c e f = record {
    calls = c;
    errors = ap incr e;
    metric = ap (λ x. incr x.metrics.error_count) f;
  }
  late-Counted i j (some x) w c e f = record {
    calls = c;
    errors = ap incr e;
    metric = ap (λ y. incr y.metrics.error_count) f;
  }

  returned-Counted :
      (i j : Instance I) (output : List ℕ) (o : Option String) (m : Metrics) (w : W)
      → j.call_count ≡ incr i.call_count
      → j.error_count ≡ i.error_count
      → m.error_count ≡ i.info.metrics.error_count
      → Counted i
          (call_returned env outer_err j output o m w).1
          (call_returned env outer_err j output o m w).0
  unfolding call_returned record_error
  returned-Counted i j output none m w c e f = record { calls = c; errors = e; metric = f }
  returned-Counted i j output (some x) m w c e f = record {
    calls = c;
    errors = ap incr e;
    metric = ap incr f;
  }

  recorded-Counted :
      (i j : Instance I) (r : CallResult) (time : ℤ) (o : Option Metrics) (w : W)
      → record_call i.info.metrics time ≡ o
      → o ≢ none
      → j.call_count ≡ incr i.call_count
      → j.error_count ≡ i.error_count
      → Counted i (call_recorded env outer_err j r o w).1 (call_recorded env outer_err j r o w).0
  unfolding call_recorded
  recorded-Counted i j r time none w f ne c e = absurd (ne refl)
  recorded-Counted i j r time (some m) w f ne c e =
      returned-Counted i j r.output r.err m w c e (record_call-error_count i.info.metrics m time f)

  answered-Counted :
      (i j : Instance I) (start : ℤ) (a : Answer) (w : W)
      → ((time : ℤ) → record_call i.info.metrics time ≢ none)
      → j.call_count ≡ incr i.call_count
      → j.error_count ≡ i.error_count
      → j.info ≡ i.info
      → Counted i
          (call_answered env outer_err j start a w).1
          (call_answered env outer_err j start a w).0
  unfolding call_answered
  answered-Counted i j start (done x) w ne c e f = late-Counted i j (outer_err w) w c e f
  answered-Counted i j start (result r) w ne c e f =
      recorded-Counted i j r (env.since start w).0 _ _
        (ap (λ x. record_call x.metrics (env.since start w).0) (sym f))
        (λ g. ne _ (ap (λ x. record_call x.metrics (env.since start w).0) (sym f) ∙ g)) c e

  -- Every call is counted, and counted as an error in the instance and in its metrics exactly when
  -- it gives no value, also when it panics because it took too long; unless the counter of calls in
  -- the metrics is about to wrap.
  pub call-Counted :
      (i : Instance I) (name : String) (input : List ℕ) (w : W)
      → ((time : ℤ) → record_call i.info.metrics time ≢ none)
      → Counted i (call env outer_err i name input w).1 (call env outer_err i name input w).0
  unfolding call
  call-Counted i name input w room =
      let (start, w1) = env.now w in
      let (answer, w2) = env.call_within (call_timeout env outer_err i) i.plugin name input w1 in
      answered-Counted i (started env outer_err i start) start answer w2 room refl refl refl
