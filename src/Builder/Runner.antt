-- ===== src/Builder/Runner.antt =====
-- src/builder/src/SceneBuilderRunner.cpp: the status of the build thread, and a round of its loop.
use edge_vision.Prelude.{
  ℕ, ℤ, pos, negsuc, ◌+◌, ◌%◌, ◌≡◌, arith, Bool, true, false, ◌||◌, List, [], ◌∷◌, Option, none,
  some, inc64, if◌then◌else◌,
}
use edge_vision.Model.Frame.ReadyQueue.{RingBuffer}
use edge_vision.Model.Frame.Store.{
  FrameStore, wait_dequeue_ready_frame_timed, mark_frame_consumed, mark_frame_failed,
}
use edge_vision.Model.Frame.{Frame}
use edge_vision.Builder.{
  InfiniTam, BuildFailureReason, FrameBuildStatus, FrameBuildResult, frame_consumed, frame_failed,
}
use edge_vision.Builder.SceneBuilder.{SceneBuilder, build_frame}
use edge_vision.Model.Scene.Shared.{Result, ok, throws}

pub record SceneBuilderRunnerStatus : Type 0 where
  pub running : Bool
  pub stop_requested : Bool
  pub build_attempt_count : ℕ
  pub consumed_frame_count : ℕ
  pub failed_frame_count : ℕ
  pub last_frame_id : ℕ
  pub last_scene_version_id : Option ℕ
  pub last_failure_reason : Option BuildFailureReason

-- `joinable` says that m_thread holds a thread that was not joined.
pub record SceneBuilderRunner : Type 0 where
  pub stop_requested : Bool
  pub is_running : Bool
  pub joinable : Bool
  pub status : SceneBuilderRunnerStatus

unfoldable pub set_running : Bool → SceneBuilderRunner → SceneBuilderRunner
set_running running r = record r {
  is_running = running;
  status = record (r.status) { running = running; stop_requested = r.stop_requested };
}

unfoldable pub start : SceneBuilderRunner → SceneBuilderRunner × Bool
unfolding set_running
start r =
    if r.joinable || r.is_running
    then (r, false)
    else (record (set_running true (record r { stop_requested = false })) { joinable = true }, true)

unfoldable pub request_stop : SceneBuilderRunner → SceneBuilderRunner
request_stop r = record r {
  stop_requested = true;
  status = record (r.status) { stop_requested = true };
}

abbrev is_consumed : FrameBuildStatus → Bool
is_consumed frame_consumed = true
is_consumed frame_failed = false

-- Waits for the thread, which has ended when this returns.
unfoldable pub join : SceneBuilderRunner → SceneBuilderRunner
join r = record r { joinable = false }

unfoldable pub record_result : FrameBuildResult → SceneBuilderRunner → SceneBuilderRunner
record_result result r =
    let noted : SceneBuilderRunnerStatus = record (r.status) {
      build_attempt_count = inc64 r.status.build_attempt_count;
      last_frame_id = result.frame_id;
      last_scene_version_id = result.scene_version_id;
    } in
    record r {
      status =
          if is_consumed result.status
          then record noted {
            consumed_frame_count = inc64 noted.consumed_frame_count;
            last_failure_reason = none;
          }
          else record noted {
            failed_frame_count = inc64 noted.failed_frame_count;
            last_scene_version_id = none;
            last_failure_reason = some result.failure_reason;
          };
    }

-- The frames, the scene and the runner, as the loop sees them.
pub record Loop (B P : Type 0) : Type 0 where
  pub store : FrameStore B
  pub builder : SceneBuilder P
  pub runner : SceneBuilderRunner

-- std::max(readyFrameTimeoutMs, 0)
abbrev non_negative : ℤ → ℤ
non_negative (pos n) = pos n
non_negative (negsuc n) = pos 0

unfoldable pub acknowledge : {B : Type 0} → FrameBuildResult → FrameStore B → FrameStore B
acknowledge result s =
    if is_consumed result.status
    then (mark_frame_consumed result.frame_id s).0
    else (mark_frame_failed result.frame_id s).0

abbrev finish_round :
    {B P : Type 0}
    → FrameStore B
    → SceneBuilderRunner
    → SceneBuilder P × FrameBuildResult
    → Loop B P
finish_round store runner (builder, result) = record {
  store = acknowledge result store;
  builder = builder;
  runner = record_result result runner;
}

module _ {B P : Type 0} ⦃rb : RingBuffer B⦄ ⦃tam : InfiniTam P⦄ where
  -- A round of runLoop once the wait for a frame is over. An exception ends the thread.
  abbrev after_wait : FrameStore B × Option Frame → Loop B P → Result (Loop B P)
  after_wait (store, none) l = ok (record l { store = store })
  after_wait (store, some frame) l = elim (build_frame frame l.builder) [
    | throws message ↦ throws message
    | ok built ↦ ok (finish_round store l.runner built)
  ]

  -- A round of runLoop.
  unfoldable pub round : ℤ → Loop B P → Result (Loop B P)
  round timeout l = after_wait (wait_dequeue_ready_frame_timed (non_negative timeout) l.store) l

-- What the thread and its owner do with the runner, one after the other: a start, a request to stop,
-- a round of the loop with its result, the end of the loop, and a join.
pub data Event : Type 0 where
  starts : Event
  requests_stop : Event
  records : FrameBuildResult → Event
  ends : Event
  joins : Event

unfoldable pub step : Event → SceneBuilderRunner → SceneBuilderRunner
unfolding start request_stop record_result set_running join
step starts r = (start r).0
step requests_stop r = request_stop r
step (records result) r = record_result result r
step ends r = set_running false r
step joins r = join r

unfoldable pub run : List Event → SceneBuilderRunner → SceneBuilderRunner
run [] r = r
run (e ∷ es) r = run es (step e r)

-- The counts agree, up to the wrap-around of std::size_t, and the status says whether the loop runs
-- and whether a stop was asked for.
pub record StatusInv (r : SceneBuilderRunner) : Type 0 where
  pub counts :
      r.status.build_attempt_count
      ≡ (r.status.consumed_frame_count + r.status.failed_frame_count) % 18446744073709551616
  pub running : r.status.running ≡ r.is_running
  pub stop_requested : r.status.stop_requested ≡ r.stop_requested

step-StatusInv : (e : Event) (r : SceneBuilderRunner) → StatusInv r → StatusInv (step e r)
unfolding step
step-StatusInv starts r v = ground arith
step-StatusInv requests_stop r v = ground arith
step-StatusInv (records result) r v = ground arith
step-StatusInv ends r v = ground arith
step-StatusInv joins r v = ground arith

-- After every sequence of starts, stop requests, recorded results, ends of the loop and joins, each attempt
-- was counted as either consumed or failed, and the status shows the flags of the runner.
pub run-BuildStatusInv :
    (events : List Event) (r : SceneBuilderRunner) → StatusInv r → StatusInv (run events r)
unfolding run
run-BuildStatusInv [] r v = v
run-BuildStatusInv (e ∷ es) r v = run-BuildStatusInv es (step e r) (step-StatusInv e r v)
