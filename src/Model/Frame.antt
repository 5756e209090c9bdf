-- ===== src/Model/Frame.antt =====
-- src/model/include/model/frame/types: frames, their lifecycle and the results of a submission.
pub mod Validator
pub mod History
pub mod Lifecycle
pub mod ReadyQueue
pub mod Store
use edge_vision.Prelude.{ℕ, ℤ, Bool, false, ◌||◌, not, String, List, Option, Float32, is_some, ◌==◌}
use edge_vision.Config.{ImageSize}

pub record CameraIntrinsics : Type 0 where
  pub fx : Float32
  pub fy : Float32
  pub cx : Float32
  pub cy : Float32

pub record FrameTimestamp : Type 0 where
  pub ticks : ℤ

-- The bytes that `data` points to stand in the buffer itself; `none` is the null pointer. `owned`
-- says that the owning shared_ptr is not null.
pub record FrameBuffer : Type 0 where
  pub bytes : Option (List ℕ)
  pub byte_count : ℕ
  pub owned : Bool

-- FrameBuffer::empty.
unfoldable pub is_empty : FrameBuffer → Bool
is_empty b = not (is_some b.bytes) || (b.byte_count == 0 || not b.owned)

pub record FrameImage : Type 0 where
  pub size : ImageSize
  pub stride_bytes : ℤ
  pub buffer : FrameBuffer

pub record Frame : Type 0 where
  pub frame_id : ℕ
  pub timestamp : FrameTimestamp
  pub rgb : FrameImage
  pub depth : FrameImage
  pub intrinsics : CameraIntrinsics

pub data FrameLifecycleState : Type 0 where
  captured_state : FrameLifecycleState
  stored_state : FrameLifecycleState
  ready_for_consumer_state : FrameLifecycleState
  dispatched_to_consumer_state : FrameLifecycleState
  consumed_state : FrameLifecycleState
  dropped_state : FrameLifecycleState
  invalid_state : FrameLifecycleState
  failed_state : FrameLifecycleState

pub record FrameLifecycle : Type 0 where
  pub frame_id : ℕ
  pub state : FrameLifecycleState
  pub captured : Bool
  pub stored : Bool
  pub ready_for_consumer : Bool
  pub dispatched_to_consumer : Bool
  pub consumed : Bool
  pub dropped : Bool
  pub invalid : Bool
  pub failed : Bool

-- FrameLifecycle{}
abbrev pub blank_lifecycle : FrameLifecycle
blank_lifecycle = record {
  frame_id = 0;
  state = captured_state;
  captured = false;
  stored = false;
  ready_for_consumer = false;
  dispatched_to_consumer = false;
  consumed = false;
  dropped = false;
  invalid = false;
  failed = false;
}

pub data FrameSubmissionCode : Type 0 where
  accepted : FrameSubmissionCode
  invalid_frame_id : FrameSubmissionCode
  invalid_timestamp : FrameSubmissionCode
  frame_id_not_newer : FrameSubmissionCode
  timestamp_not_newer : FrameSubmissionCode
  missing_rgb_buffer : FrameSubmissionCode
  missing_depth_buffer : FrameSubmissionCode
  invalid_rgb_dimensions : FrameSubmissionCode
  invalid_depth_dimensions : FrameSubmissionCode
  invalid_intrinsics : FrameSubmissionCode
  ready_frame_queue_full : FrameSubmissionCode
  history_full : FrameSubmissionCode

pub record FrameSubmissionResult : Type 0 where
  pub code : FrameSubmissionCode
  pub frame_id : ℕ
  pub message : String

abbrev pub is_accepted_code : FrameSubmissionCode → Bool
is_accepted_code accepted = Bool.true
is_accepted_code _ = false

-- FrameSubmissionResult::accepted.
abbrev pub is_accepted : FrameSubmissionResult → Bool
is_accepted r = is_accepted_code r.code

abbrev pub make_result : FrameSubmissionCode → ℕ → String → FrameSubmissionResult
make_result code frame_id message = record { code = code; frame_id = frame_id; message = message }
