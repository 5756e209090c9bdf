-- ===== src/Capture/Frame.antt =====
-- src/capture/include/capture/frame/types and frame/utils/FrameBuildResult.cpp, FrameIngestResult.cpp:
-- the results of building and of ingesting a frame.
pub mod Validator
pub mod Builder
pub mod Ingestor
pub mod Runner
use edge_vision.Prelude.{ℕ, Bool, true, false, ◌&&◌, String, Option, none, some, is_some}
use edge_vision.Model.Frame.{Frame, FrameSubmissionCode, FrameSubmissionResult}

pub data FrameBuildCode : Type 0 where
  built : FrameBuildCode
  invalid_frame_id : FrameBuildCode
  invalid_timestamp : FrameBuildCode
  missing_color_image : FrameBuildCode
  missing_depth_image : FrameBuildCode
  unsupported_color_format : FrameBuildCode
  unsupported_depth_format : FrameBuildCode
  invalid_color_image : FrameBuildCode
  invalid_depth_image : FrameBuildCode
  transformation_create_failed : FrameBuildCode
  transformed_depth_image_create_failed : FrameBuildCode
  depth_alignment_failed : FrameBuildCode
  invalid_intrinsics : FrameBuildCode

pub record FrameBuildResult : Type 0 where
  pub code : FrameBuildCode
  pub frame_id : ℕ
  pub message : String
  pub frame : Option Frame

abbrev is_built_code : FrameBuildCode → Bool
is_built_code built = true
is_built_code _ = false

-- FrameBuildResult::built.
abbrev pub is_built : FrameBuildResult → Bool
is_built r = is_built_code r.code && is_some r.frame

abbrev pub make_frame_build_failure : FrameBuildCode → ℕ → String → FrameBuildResult
make_frame_build_failure code id message = record {
  code = code;
  frame_id = id;
  message = message;
  frame = none;
}

abbrev pub make_frame_build_success : Frame → FrameBuildResult
make_frame_build_success frame = record {
  code = built;
  frame_id = frame.frame_id;
  message = "Frame built";
  frame = some frame;
}

pub data FrameIngestCode : Type 0 where
  submitted : FrameIngestCode
  capture_unavailable : FrameIngestCode
  calibration_unavailable : FrameIngestCode
  build_failed : FrameIngestCode
  model_rejected : FrameIngestCode

pub record FrameIngestResult : Type 0 where
  pub code : FrameIngestCode
  pub frame_id : ℕ
  pub message : String
  pub build_code : Option FrameBuildCode
  pub submission_code : Option FrameSubmissionCode

abbrev pub is_submitted_code : FrameIngestCode → Bool
is_submitted_code submitted = true
is_submitted_code _ = false

-- FrameIngestResult::submitted.
abbrev pub is_submitted : FrameIngestResult → Bool
is_submitted r = is_submitted_code r.code

abbrev pub make_frame_ingest_result : FrameIngestCode → ℕ → String → FrameIngestResult
make_frame_ingest_result code id message = record {
  code = code;
  frame_id = id;
  message = message;
  build_code = none;
  submission_code = none;
}

abbrev pub make_build_failed_result : ℕ → FrameBuildResult → FrameIngestResult
make_build_failed_result id result = record {
  code = build_failed;
  frame_id = id;
  message = result.message;
  build_code = some result.code;
  submission_code = none;
}

abbrev pub make_model_rejected_result : FrameSubmissionResult → FrameIngestResult
make_model_rejected_result result = record {
  code = model_rejected;
  frame_id = result.frame_id;
  message = result.message;
  build_code = none;
  submission_code = some result.code;
}

abbrev pub make_submitted_result : FrameSubmissionResult → FrameIngestResult
make_submitted_result result = record {
  code = submitted;
  frame_id = result.frame_id;
  message = result.message;
  build_code = none;
  submission_code = some result.code;
}
