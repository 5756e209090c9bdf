-- ===== src/Model/Frame/Store.antt =====
-- src/model/src/frame/FrameStore.cpp. A method returns the new store beside its result; what a
-- method does between taking and giving back the store's mutex is one function.
pub mod Submission
pub mod Eviction
pub mod Capacity
pub mod Protection
pub mod Interleaving
pub mod Delivery
use edge_vision.Prelude.{
  ℕ, zero, suc, ℤ, max, Bool, true, false, not, ◌&&◌, String, List, Option, none, some, ltb, leb,
  inc64, is_some, ◌==◌, if◌then◌else◌,
}
use edge_vision.Model.Frame.{
  Frame, FrameTimestamp, FrameLifecycle, FrameSubmissionCode, FrameSubmissionResult, make_result,
  is_accepted, invalid_frame_id, ready_frame_queue_full,
}
use edge_vision.Model.Frame.Validator.{FrameValidationContext, validate}
use edge_vision.Model.Frame.History.{FrameHistory, empty_history}
use edge_vision.Model.Frame.History
use edge_vision.Model.Frame.Lifecycle.{Tracker}
use edge_vision.Model.Frame.Lifecycle
use edge_vision.Model.Frame.ReadyQueue.{ReadyFrameQueue, RingBuffer, mark_completed}
use edge_vision.Model.Frame.ReadyQueue

pub record FrameStoreConfig : Type 0 where
  pub max_stored_frames : ℕ
  pub max_ready_frames : ℕ

pub record FrameStore (B : Type 0) : Type 0 where
  pub config : FrameStoreConfig
  pub history : FrameHistory
  pub tracker : Tracker
  pub ready_queue : ReadyFrameQueue B
  pub accepted_frame_count : ℕ
  pub rejected_frame_count : ℕ
  pub dropped_frame_count : ℕ
  pub evicted_frame_count : ℕ
  pub last_submission_code : FrameSubmissionCode
  pub last_error : String

pub record FrameStoreStatus : Type 0 where
  pub stored_frame_count : ℕ
  pub max_stored_frames : ℕ
  pub ready_frame_count : ℕ
  pub max_ready_frames : ℕ
  pub accepted_frame_count : ℕ
  pub rejected_frame_count : ℕ
  pub dropped_frame_count : ℕ
  pub evicted_frame_count : ℕ
  pub latest_frame_id : Option ℕ
  pub latest_timestamp : Option FrameTimestamp
  pub last_submission_code : FrameSubmissionCode
  pub last_error : String
  pub lifecycles : Tracker

-- !latest.has_value() || id != *latest
abbrev pub is_not_latest : Option ℕ → ℕ → Bool
is_not_latest none id = true
is_not_latest (some latest) id = not (id == latest)

-- The test that evictOldFramesLocked gives to findOldestEvictable.
abbrev pub is_evictable : Option ℕ → Tracker → ℕ → Bool
is_evictable latest t id =
    is_not_latest latest id && not (Lifecycle.is_protected_from_eviction id t)

module _ {B : Type 0} where
  -- The body of the loop, once a frame to drop has been found.
  unfoldable pub drop_frame : ℕ → FrameStore B → FrameStore B
  drop_frame id s = record s {
    tracker = Lifecycle.mark_dropped id s.tracker;
    history = History.remove_frame id s.history;
    dropped_frame_count = inc64 s.dropped_frame_count;
    evicted_frame_count = inc64 s.evicted_frame_count;
  }

  unfoldable pub next_to_evict : FrameStore B → Option ℕ
  next_to_evict s =
      History.find_oldest_evictable (is_evictable (History.latest_frame_id s.history) s.tracker)
        s.history

  -- The loop of evictOldFramesLocked, on fuel.
  unfoldable pub evict_loop : ℕ → FrameStore B → FrameStore B
  evict_loop zero s = s
  evict_loop (suc fuel) s = elim (ltb s.config.max_stored_frames (History.size s.history)) [
    | false ↦ s
    | true ↦ elim (next_to_evict s) [ none ↦ s | some id ↦ evict_loop fuel (drop_frame id s) ]
  ]

  -- Each round takes one frame out, so as many rounds as there are frames are enough.
  unfoldable pub evict_old_frames : FrameStore B → FrameStore B
  evict_old_frames s = evict_loop (History.size s.history) s

  unfoldable pub record_status : FrameSubmissionResult → FrameStore B → FrameStore B
  record_status result s = record s {
    last_submission_code = result.code;
    last_error = if is_accepted result then "" else result.message;
  }

  unfoldable pub record_rejected_frame : Frame → FrameSubmissionResult → FrameStore B → FrameStore B
  unfolding record_status
  record_rejected_frame frame result s = record_status result (record s {
    tracker = Lifecycle.record_invalid frame.frame_id s.tracker;
    rejected_frame_count = inc64 s.rejected_frame_count;
  })

  unfoldable pub validation_context : FrameStore B → FrameValidationContext
  validation_context s = record {
    latest_frame_id = History.latest_frame_id s.history;
    latest_timestamp = History.latest_timestamp s.history;
    is_history_full = leb s.config.max_stored_frames (History.size s.history);
    has_evictable_frame = is_some (
        History.find_oldest_evictable
          (λ id. not (Lifecycle.is_protected_from_eviction id s.tracker)) s.history);
  }

  -- The rest of submitFrame, once the frame is in the ready queue.
  unfoldable pub store_frame :
      Frame → FrameSubmissionResult → ReadyFrameQueue B → FrameStore B → FrameStore B
  store_frame frame result queue s = record_status result (
      evict_old_frames (record s {
        ready_queue = queue;
        tracker = Lifecycle.record_accepted_ready frame.frame_id s.tracker;
        history = History.add_frame frame s.history;
        accepted_frame_count = inc64 s.accepted_frame_count;
      }))

  unfoldable pub mark_frame_consumed : ℕ → FrameStore B → FrameStore B × Bool
  mark_frame_consumed id s =
      let (queue, known) = mark_completed id s.ready_queue in
      if known
      then (
        evict_old_frames
            (record s { ready_queue = queue; tracker = Lifecycle.mark_consumed id s.tracker }),
        true,
      )
      else (s, false)

  unfoldable pub mark_frame_failed : ℕ → FrameStore B → FrameStore B × Bool
  mark_frame_failed id s =
      let (queue, known) = mark_completed id s.ready_queue in
      if known
      then (
        evict_old_frames
            (record s { ready_queue = queue; tracker = Lifecycle.mark_failed id s.tracker }),
        true,
      )
      else (s, false)

  unfoldable pub get_last_frame : FrameStore B → Option Frame
  get_last_frame s = History.latest s.history

  unfoldable pub get_frame : ℕ → FrameStore B → Option Frame
  get_frame id s = History.get id s.history

  unfoldable pub get_recent_frames : ℕ → FrameStore B → List Frame
  get_recent_frames count s = History.recent count s.history

  unfoldable pub get_frame_lifecycle : ℕ → FrameStore B → Option FrameLifecycle
  get_frame_lifecycle id s = Lifecycle.get_lifecycle id s.tracker

  -- The second half of the three dequeues, under the store's mutex.
  unfoldable pub finish_dequeue : ℕ → FrameStore B → FrameStore B
  finish_dequeue id s = record s { tracker = Lifecycle.mark_dispatched id s.tracker }

module _ {B : Type 0} ⦃rb : RingBuffer B⦄ where
  unfoldable pub make_store : FrameStoreConfig → FrameStore B
  make_store config = record {
    config = record {
      max_stored_frames = max 1 config.max_stored_frames;
      max_ready_frames = max 1 config.max_ready_frames;
    };
    history = empty_history;
    tracker = List.[];
    ready_queue = ReadyQueue.make_ready_queue (max 1 config.max_ready_frames);
    accepted_frame_count = 0;
    rejected_frame_count = 0;
    dropped_frame_count = 0;
    evicted_frame_count = 0;
    last_submission_code = invalid_frame_id;
    last_error = "";
  }

  unfoldable pub submit_frame : Frame → FrameStore B → FrameStore B × FrameSubmissionResult
  submit_frame frame s =
      let result = validate frame (validation_context s) in
      if not (is_accepted result)
      then (record_rejected_frame frame result s, result)
      else elim (ReadyQueue.try_enqueue s.ready_queue frame) [
        | none ↦
            let full =
              make_result ready_frame_queue_full frame.frame_id "Ready frame queue is full" in
            (record_rejected_frame frame full s, full)
        | some queue ↦ (store_frame frame result queue s, result)
      ]

  -- The first half of a dequeue, which takes the frame without the store's mutex.
  abbrev pub begin_dequeue :
      Option (Frame × ReadyFrameQueue B) → FrameStore B → FrameStore B × Option Frame
  begin_dequeue none s = (s, none)
  begin_dequeue (some (frame, queue)) s = (record s { ready_queue = queue }, some frame)

  -- Both halves, when nothing comes between them.
  abbrev pub complete_dequeue : FrameStore B × Option Frame → FrameStore B × Option Frame
  complete_dequeue (s, none) = (s, none)
  complete_dequeue (s, some frame) = (finish_dequeue frame.frame_id s, some frame)

  unfoldable pub try_dequeue_ready_frame : FrameStore B → FrameStore B × Option Frame
  try_dequeue_ready_frame s =
      complete_dequeue (begin_dequeue (ReadyQueue.try_dequeue s.ready_queue) s)

  unfoldable pub wait_dequeue_ready_frame : FrameStore B → FrameStore B × Option Frame
  wait_dequeue_ready_frame s =
      complete_dequeue (begin_dequeue (ReadyQueue.wait_dequeue s.ready_queue) s)

  unfoldable pub wait_dequeue_ready_frame_timed : ℤ → FrameStore B → FrameStore B × Option Frame
  wait_dequeue_ready_frame_timed timeout s =
      complete_dequeue (begin_dequeue (ReadyQueue.wait_dequeue_timed timeout s.ready_queue) s)

  unfoldable pub get_status : FrameStore B → FrameStoreStatus
  get_status s = record {
    stored_frame_count = History.size s.history;
    max_stored_frames = s.config.max_stored_frames;
    ready_frame_count = ReadyQueue.size_approx s.ready_queue;
    max_ready_frames = s.config.max_ready_frames;
    accepted_frame_count = s.accepted_frame_count;
    rejected_frame_count = s.rejected_frame_count;
    dropped_frame_count = s.dropped_frame_count;
    evicted_frame_count = s.evicted_frame_count;
    latest_frame_id = History.latest_frame_id s.history;
    latest_timestamp = History.latest_timestamp s.history;
    last_submission_code = s.last_submission_code;
    last_error = s.last_error;
    lifecycles = Lifecycle.snapshot s.tracker;
  }
