-- ===== src/Capture/Frame/Runner.antt =====
-- src/capture/src/frame/FrameIngestorRunner.cpp: the status of the ingest thread.
use edge_vision.Prelude.{
  ℕ, ◌+◌, ◌%◌, ◌≡◌, arith, Bool, true, false, ◌||◌, String, List, [], ◌∷◌, Option, some, inc64,
  if◌then◌else◌,
}
use edge_vision.Capture.Frame.{FrameIngestCode, FrameIngestResult, is_submitted}

pub record FrameIngestorRunnerStatus : Type 0 where
  pub running : Bool
  pub stop_requested : Bool
  pub ingest_attempt_count : ℕ
  pub submitted_frame_count : ℕ
  pub failed_ingest_count : ℕ
  pub last_code : Option FrameIngestCode
  pub last_frame_id : ℕ
  pub last_message : String

-- `joinable` says that m_thread holds a thread that was not joined.
pub record FrameIngestorRunner : Type 0 where
  pub stop_requested : Bool
  pub is_running : Bool
  pub joinable : Bool
  pub status : FrameIngestorRunnerStatus

unfoldable pub set_running : Bool → FrameIngestorRunner → FrameIngestorRunner
set_running running r = record r {
  is_running = running;
  status = record (r.status) { running = running; stop_requested = r.stop_requested };
}

unfoldable pub start : FrameIngestorRunner → FrameIngestorRunner × Bool
unfolding set_running
start r =
    if r.joinable || r.is_running
    then (r, false)
    else (record (set_running true (record r { stop_requested = false })) { joinable = true }, true)

unfoldable pub request_stop : FrameIngestorRunner → FrameIngestorRunner
request_stop r = record r {
  stop_requested = true;
  status = record (r.status) { stop_requested = true };
}

-- Waits for the thread, which has ended when this returns.
unfoldable pub join : FrameIngestorRunner → FrameIngestorRunner
join r = record r { joinable = false }

unfoldable pub record_result : FrameIngestResult → FrameIngestorRunner → FrameIngestorRunner
record_result result r =
    let noted : FrameIngestorRunnerStatus = record (r.status) {
      ingest_attempt_count = inc64 r.status.ingest_attempt_count;
      last_code = some result.code;
      last_frame_id = result.frame_id;
      last_message = result.message;
    } in
    record r {
      status =
          if is_submitted result
          then record noted { submitted_frame_count = inc64 noted.submitted_frame_count }
          else record noted { failed_ingest_count = inc64 noted.failed_ingest_count };
    }

-- What the thread and its owner do with the runner, one after the other: a start, a request to stop,
-- a round of the loop with its result, the end of the loop, and a join.
pub data Event : Type 0 where
  starts : Event
  requests_stop : Event
  records : FrameIngestResult → Event
  ends : Event
  joins : Event

unfoldable pub step : Event → FrameIngestorRunner → FrameIngestorRunner
unfolding start request_stop record_result set_running join
step starts r = (start r).0
step requests_stop r = request_stop r
step (records result) r = record_result result r
step ends r = set_running false r
step joins r = join r

unfoldable pub run : List Event → FrameIngestorRunner → FrameIngestorRunner
run [] r = r
run (e ∷ es) r = run es (step e r)

-- The counts agree, up to the wrap-around of std::size_t, and the status says whether the loop runs
-- and whether a stop was asked for.
pub record StatusInv (r : FrameIngestorRunner) : Type 0 where
  pub counts :
      r.status.ingest_attempt_count
      ≡ (r.status.submitted_frame_count + r.status.failed_ingest_count) % 18446744073709551616
  pub running : r.status.running ≡ r.is_running
  pub stop_requested : r.status.stop_requested ≡ r.stop_requested

step-StatusInv : (e : Event) (r : FrameIngestorRunner) → StatusInv r → StatusInv (step e r)
unfolding step
step-StatusInv starts r v = ground arith
step-StatusInv requests_stop r v = ground arith
step-StatusInv (records result) r v = ground arith
step-StatusInv ends r v = ground arith
step-StatusInv joins r v = ground arith

-- After every sequence of starts, stop requests, recorded results, ends of the loop and joins, each attempt
-- was counted as either submitted or failed, and the status shows the flags of the runner.
pub run-StatusInv :
    (events : List Event) (r : FrameIngestorRunner) → StatusInv r → StatusInv (run events r)
unfolding run
run-StatusInv [] r v = v
run-StatusInv (e ∷ es) r v = run-StatusInv es (step e r) (step-StatusInv e r v)
