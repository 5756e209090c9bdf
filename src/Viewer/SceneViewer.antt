-- ===== src/Viewer/SceneViewer.antt =====
-- src/viewer/src/SceneViewer.cpp. The read access is taken when no writer is in the scene, as
-- Model/Scene/Shared/Threads.antt has it.
pub mod Outcomes
use edge_vision.Prelude.{
  ℕ, ℤ, pos, Bool, true, false, ◌&&◌, Option, none, some, leb_ℤ, ltb_ℤ, is_finite, gt_zero, ge_zero,
  ◌==◌, if◌then◌else◌,
}
use edge_vision.Config.{ImageSize}
use edge_vision.Model.Frame.{CameraIntrinsics}
use edge_vision.Model.Scene.Shared.{
  SharedSceneState, SceneAccessLease, arrive_read, acquire_read, release,
}
use edge_vision.Model.Viewer.{ViewerPose, RenderOutput}
use edge_vision.Model.Viewer.OutputStore.{RenderOutputStore, latest, publish}
use edge_vision.Viewer.{Visualisation}
use edge_vision.Viewer.Pipeline.{ViewerPipeline, render}

abbrev pub max_sane_image_dimension : ℤ
max_sane_image_dimension = pos 16384

unfoldable pub has_valid_image_size : ImageSize → Bool
has_valid_image_size size =
    ltb_ℤ (pos 0) size.width
    && (ltb_ℤ (pos 0) size.height
        && (leb_ℤ size.width max_sane_image_dimension
            && leb_ℤ size.height max_sane_image_dimension))

unfoldable pub has_valid_intrinsics : CameraIntrinsics → Bool
has_valid_intrinsics i =
    is_finite i.fx
    && (is_finite i.fy
        && (is_finite i.cx
            && (is_finite i.cy
                && (gt_zero i.fx && (gt_zero i.fy && (ge_zero i.cx && ge_zero i.cy))))))

pub record SceneViewer (V : Type 0) : Type 0 where
  pub shared : SharedSceneState
  pub outputs : RenderOutputStore
  pub pipeline : ViewerPipeline V

-- The test that marks an output as cached, against the latest output.
unfoldable pub repeats_latest : Option RenderOutput → RenderOutput → Bool
repeats_latest none output = false
repeats_latest (some last) output =
    last.pose_generation == output.pose_generation
    && last.scene_version_id == output.scene_version_id

module _ {S V : Type 0} ⦃vis : Visualisation S V⦄ where
  -- renderPose inside the scope of the read access. The access ends after the output is published.
  unfoldable pub render_with_access :
      S → ℤ → ViewerPose → SceneAccessLease → SceneViewer V → SceneViewer V × Option RenderOutput
  unfolding repeats_latest
  render_with_access scene now pose lease s =
      let (p, rendered) = render scene lease.version now pose s.pipeline in
      let output : RenderOutput = record rendered {
        cached = repeats_latest (latest s.outputs) rendered;
      } in
      (
        record {
          shared = release lease s.shared;
          outputs = publish output s.outputs;
          pipeline = p;
        },
        some output,
      )

  -- SceneViewer::renderPose.
  unfoldable pub render_pose :
      S → ℤ → ViewerPose → SceneViewer V → SceneViewer V × Option RenderOutput
  render_pose scene now pose s =
      if has_valid_image_size pose.image_size && has_valid_intrinsics pose.intrinsics
      then render_with_access scene now pose (acquire_read (arrive_read s.shared)).1
          (record s { shared = (acquire_read (arrive_read s.shared)).0 })
      else (s, none)
