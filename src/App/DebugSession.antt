-- ===== src/App/DebugSession.antt =====
-- src/app/src/runtime/ViewerDebugSession.cpp. The log is the list of what was written to it, newest
-- last; the time and the sampled counters are arguments.
pub mod Summary
use edge_vision.Prelude.{
  ℕ, ◌+◌, ◌-◌, ℤ, pos, negsuc, ltb, ltb_ℤ, Bool, true, false, not, ◌||◌, String, List, [], ◌∷◌,
  ◌++◌, leb, if◌then◌else◌,
}
use edge_vision.App.{RateArith}

pub record ViewerDebugCounters : Type 0 where
  pub submitted_frame_count : ℕ
  pub consumed_frame_count : ℕ
  pub published_output_count : ℕ
  pub cached_output_count : ℕ

-- Doubles, as their patterns.
pub record ViewerDebugRates : Type 0 where
  pub ingest_fps : ℕ
  pub build_fps : ℕ
  pub view_fps : ℕ
  pub uncached_view_fps : ℕ
  pub cached_view_fps : ℕ

unfoldable pub clamped_delta : ℕ → ℕ → ℕ
clamped_delta current baseline = if leb baseline current then current - baseline else 0

unfoldable pub uncached_output_count : ViewerDebugCounters → ℕ
uncached_output_count counters =
    if leb counters.cached_output_count counters.published_output_count
    then counters.published_output_count - counters.cached_output_count
    else 0

abbrev pub no_rates : ViewerDebugRates
no_rates = record {
  ingest_fps = 0;
  build_fps = 0;
  view_fps = 0;
  uncached_view_fps = 0;
  cached_view_fps = 0;
}

unfoldable pub compute_viewer_debug_rates :
    RateArith → ViewerDebugCounters → ViewerDebugCounters → ℕ → ViewerDebugRates
unfolding clamped_delta
compute_viewer_debug_rates fl begin end elapsed =
    let published = clamped_delta end.published_output_count begin.published_output_count in
    let cached = clamped_delta end.cached_output_count begin.cached_output_count in
    if not (fl.is_positive elapsed) then no_rates else record {
      ingest_fps =
          fl.rate (clamped_delta end.submitted_frame_count begin.submitted_frame_count) elapsed;
      build_fps =
          fl.rate (clamped_delta end.consumed_frame_count begin.consumed_frame_count) elapsed;
      view_fps = fl.rate published elapsed;
      uncached_view_fps = fl.rate (if leb cached published then published - cached else 0) elapsed;
      cached_view_fps = fl.rate cached elapsed;
    }

-- A line of the log, before it is printed.
pub data LogLine : Type 0 where
  metrics : ViewerDebugRates → ℕ → LogLine
  summary : ℕ → ViewerDebugCounters → ℕ → ℕ → LogLine
  average : ViewerDebugRates → ℕ → LogLine

-- `has_sampler` says that m_counterSampler is set, `is_log_open` that the log was opened. The dumper's
-- count of skipped duplicates is an argument.
pub record ViewerDebugSession : Type 0 where
  pub has_sampler : Bool
  pub is_log_open : Bool
  pub started_at : ℤ
  pub last_reported_at : ℤ
  pub started_counters : ViewerDebugCounters
  pub last_reported_counters : ViewerDebugCounters
  pub log : List LogLine
  pub summary_written : Bool

abbrev pub no_counters : ViewerDebugCounters
no_counters = record {
  submitted_frame_count = 0;
  consumed_frame_count = 0;
  published_output_count = 0;
  cached_output_count = 0;
}

-- `sampled` is what the sampler would give.
unfoldable pub sample_counters : Bool → ViewerDebugCounters → ViewerDebugCounters
sample_counters has_sampler sampled = if has_sampler then sampled else no_counters

unfoldable pub make_session : Bool → Bool → ℤ → ViewerDebugCounters → ViewerDebugSession
unfolding sample_counters
make_session has_sampler opened now sampled = record {
  has_sampler = has_sampler;
  is_log_open = opened;
  started_at = now;
  last_reported_at = now;
  started_counters = sample_counters has_sampler sampled;
  last_reported_counters = sample_counters has_sampler sampled;
  log = [];
  summary_written = false;
}

-- kReportPeriod, in the ticks of the clock.
abbrev pub report_period : ℕ
report_period = 1000000000

abbrev pub later_by : ℕ → ℤ → ℤ
later_by n (pos a) = pos (a + n)
later_by n (negsuc a) = if ltb a n then pos (n - a - 1) else negsuc (a - n)

unfoldable pub maybe_log_sample :
    RateArith → ℤ → ViewerDebugCounters → ℕ → ViewerDebugSession → ViewerDebugSession
maybe_log_sample fl now sampled skipped s =
    let counters = sample_counters s.has_sampler sampled in
    if not s.is_log_open || not s.has_sampler
    then s
    else if ltb_ℤ now (later_by report_period s.last_reported_at)
    then s
    else record s {
      log =
          s.log
          ++ metrics
              (compute_viewer_debug_rates fl s.last_reported_counters counters
                (fl.seconds s.last_reported_at now))
              skipped
            ∷ [];
      last_reported_at = now;
      last_reported_counters = counters;
    }

abbrev pub totals_since : ViewerDebugCounters → ViewerDebugCounters → ViewerDebugCounters
totals_since begin end = record {
  submitted_frame_count = clamped_delta end.submitted_frame_count begin.submitted_frame_count;
  consumed_frame_count = clamped_delta end.consumed_frame_count begin.consumed_frame_count;
  published_output_count = clamped_delta end.published_output_count begin.published_output_count;
  cached_output_count = clamped_delta end.cached_output_count begin.cached_output_count;
}

unfoldable pub write_final_summary :
    RateArith → ℤ → ViewerDebugCounters → ℕ → ViewerDebugSession → ViewerDebugSession
write_final_summary fl now sampled skipped s =
    let counters = sample_counters s.has_sampler sampled in
    let totals = totals_since s.started_counters counters in
    let elapsed = fl.seconds s.started_at now in
    if s.summary_written || not s.is_log_open
    then record s { summary_written = true }
    else record s {
      log =
          s.log
          ++ summary elapsed totals (uncached_output_count totals) skipped
            ∷ average (compute_viewer_debug_rates fl s.started_counters counters elapsed) skipped
            ∷ [];
      summary_written = true;
    }
