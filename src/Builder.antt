-- ===== src/Builder.antt =====
-- src/builder: the thread that integrates frames into the scene. InfiniTAM's engines and its view
-- are a library's, and enter as the interface InfiniTam over their own state P.
pub mod View
pub mod Pipeline
pub mod SceneBuilder
pub mod Runner
use edge_vision.Prelude.{ℕ, Bool, List, Option, Float32}
use edge_vision.Model.Frame.{Frame}
use edge_vision.Model.Scene.{Pixel, Pose4f}

-- The calls of InfiniTAM, in the terms of the pipeline: `track` answers whether the tracker did not
-- fail, and `current_pose` is the inverse of the tracked pose; `fill_view` puts the colours and the
-- depths into the view's images, with no confidences, and moves them to the device; `metres` is the
-- machine's product of a depth and 0.001f.
pub record InfiniTam (P : Type 0) : Type 0 where
  pub make_view : Frame → P → P
  pub fill_view : List Pixel → List Float32 → P → P
  pub metres : ℕ → Float32
  pub make_engines : Bool → Frame → P → P
  pub track : P → Bool × P
  pub process_frame : P → P
  pub prepare : P → P
  pub current_pose : P → Pose4f

pub data BuildFailureReason : Type 0 where
  no_failure view_conversion_failed tracking_lost : BuildFailureReason

pub data FrameBuildStatus : Type 0 where
  frame_consumed frame_failed : FrameBuildStatus

pub record FrameBuildResult : Type 0 where
  pub status : FrameBuildStatus
  pub failure_reason : BuildFailureReason
  pub frame_id : ℕ
  pub scene_version_id : Option ℕ
