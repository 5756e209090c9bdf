-- ===== src/Model/Viewer.antt =====
-- src/model/include/model/viewer/types and model/scene/types/version.hpp: poses and rendered outputs.
pub mod PoseStore
pub mod OutputStore
use edge_vision.Prelude.{ℕ, ℤ, Bool, not}
use edge_vision.Config.{ImageSize}
use edge_vision.Model.Frame.{CameraIntrinsics, FrameBuffer, is_empty}
use edge_vision.Model.Scene.{Pose4f}

pub record ViewerPose : Type 0 where
  pub pose : Pose4f
  pub intrinsics : CameraIntrinsics
  pub image_size : ImageSize
  pub generation : ℕ

pub record RenderOutput : Type 0 where
  pub rgb : FrameBuffer
  pub image_size : ImageSize
  pub pose_generation : ℕ
  pub scene_version_id : ℕ
  pub render_timestamp : ℤ
  pub cached : Bool

-- RenderOutput::hasRgb.
unfoldable pub has_rgb : RenderOutput → Bool
unfolding is_empty
has_rgb output = not (is_empty output.rgb)
