-- ===== src/App/DebugSession/Summary.antt =====
-- A debug session of ViewerDebugSession.cpp as a sequence of samples and final summaries.
use edge_vision.Prelude.{
  ℕ, ◌+◌, ◌≤◌, ◌≡◌, refl, ◌⊎◌, inl, inr, arith, ℤ, Bool, true, List, [], ◌∷◌, ◌++◌,
}
use edge_vision.App.{RateArith}
use edge_vision.App.DebugSession.{
  ViewerDebugCounters, ViewerDebugSession, LogLine, metrics, summary, average, make_session,
  maybe_log_sample, write_final_summary, sample_counters, uncached_output_count,
  compute_viewer_debug_rates, totals_since, ViewerDebugRates,
}

-- A tick of the wait, or its end, with the time, the counters and the skipped duplicates.
pub data Event : Type 0 where
  ticks : ℤ → ViewerDebugCounters → ℕ → Event
  completes : ℤ → ViewerDebugCounters → ℕ → Event

unfoldable pub step : RateArith → Event → ViewerDebugSession → ViewerDebugSession
step fl (ticks now sampled skipped) s = maybe_log_sample fl now sampled skipped s
step fl (completes now sampled skipped) s = write_final_summary fl now sampled skipped s

unfoldable pub run : RateArith → List Event → ViewerDebugSession → ViewerDebugSession
unfolding step
run fl [] s = s
run fl (e ∷ es) s = run fl es (step fl e s)

-- The summaries in a log.
abbrev pub summaries : List LogLine → ℕ
summaries [] = 0
summaries (summary elapsed totals uncached skipped ∷ log) = 1 + summaries log
summaries (metrics rates skipped ∷ log) = summaries log
summaries (average rates skipped ∷ log) = summaries log

summaries-append : (xs ys : List LogLine) → summaries (xs ++ ys) ≡ summaries xs + summaries ys
summaries-append [] ys = omega arith
summaries-append (summary elapsed totals uncached skipped ∷ xs) ys =
    omega (arith, summaries-append xs ys)
summaries-append (metrics rates skipped ∷ xs) ys = summaries-append xs ys
summaries-append (average rates skipped ∷ xs) ys = summaries-append xs ys

-- There is at most one summary, and none while none was written.
abbrev pub SummaryInv : ViewerDebugSession → Type 0
SummaryInv s = (summaries s.log ≡ 0) ⊎ ((summaries s.log ≡ 1) × (s.summary_written ≡ true))

metrics_kept :
    (log : List LogLine) (rates : ViewerDebugRates) (skipped : ℕ)
    → summaries (log ++ metrics rates skipped ∷ []) ≡ summaries log
metrics_kept log rates skipped = omega (arith, summaries-append log (metrics rates skipped ∷ []))

summary_added :
    (log : List LogLine) (elapsed : ℕ) (totals : ViewerDebugCounters) (uncached skipped : ℕ)
    (rates : ViewerDebugRates)
    → summaries (log ++ summary elapsed totals uncached skipped ∷ average rates skipped ∷ [])
      ≡ summaries log + 1
summary_added log elapsed totals uncached skipped rates = omega (
  arith,
  summaries-append log (summary elapsed totals uncached skipped ∷ average rates skipped ∷ []),
)

sample-SummaryInv :
    (fl : RateArith) (now : ℤ) (sampled : ViewerDebugCounters) (skipped : ℕ)
    (s : ViewerDebugSession)
    → SummaryInv s
    → SummaryInv (maybe_log_sample fl now sampled skipped s)
unfolding maybe_log_sample
sample-SummaryInv fl now sampled skipped s v =
    let rates =
      compute_viewer_debug_rates fl s.last_reported_counters (sample_counters s.has_sampler sampled)
        (fl.seconds s.last_reported_at now) in
    ground (arith, v, metrics_kept s.log rates skipped)

finish-SummaryInv :
    (fl : RateArith) (now : ℤ) (sampled : ViewerDebugCounters) (skipped : ℕ)
    (s : ViewerDebugSession)
    → SummaryInv s
    → SummaryInv (write_final_summary fl now sampled skipped s)
unfolding write_final_summary
finish-SummaryInv fl now sampled skipped s v =
    let counters = sample_counters s.has_sampler sampled in
    let totals = totals_since s.started_counters counters in
    let elapsed = fl.seconds s.started_at now in
    ground (
      arith,
      v,
      summary_added s.log elapsed totals (uncached_output_count totals) skipped
          (compute_viewer_debug_rates fl s.started_counters counters elapsed),
    )

step-SummaryInv :
    (fl : RateArith) (e : Event) (s : ViewerDebugSession) → SummaryInv s → SummaryInv (step fl e s)
unfolding step
step-SummaryInv fl (ticks now sampled skipped) s v = sample-SummaryInv fl now sampled skipped s v
step-SummaryInv fl (completes now sampled skipped) s v =
    finish-SummaryInv fl now sampled skipped s v

run-SummaryInv :
    (fl : RateArith) (es : List Event) (s : ViewerDebugSession)
    → SummaryInv s
    → SummaryInv (run fl es s)
unfolding run
run-SummaryInv fl [] s v = v
run-SummaryInv fl (e ∷ es) s v = run-SummaryInv fl es (step fl e s) (step-SummaryInv fl e s v)

-- Whatever samples and completions follow a new session, its log has at most one summary.
pub one_summary :
    (fl : RateArith) (has_sampler opened : Bool) (now : ℤ) (sampled : ViewerDebugCounters)
    (es : List Event)
    → summaries (run fl es (make_session has_sampler opened now sampled)).log ≤ 1
unfolding make_session
one_summary fl has_sampler opened now sampled es =
    let s = make_session has_sampler opened now sampled in
    elim (run-SummaryInv fl es s (inl refl)) [
      | inl e ↦ omega (arith, e)
      | inr (e, w) ↦ omega (arith, e)
    ]
