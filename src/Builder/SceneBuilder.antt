-- ===== src/Builder/SceneBuilder.antt =====
-- src/builder/src/state/SceneBuilder.cpp. The write access is taken when no reader and no other
-- writer is in the scene, as Model/Scene/Shared/Threads.antt has it, and nothing else touches the
-- shared state until it ends.
pub mod Integration
use edge_vision.Prelude.{ℕ, ℤ, Bool, true, false, Option, none, some, if◌then◌else◌}
use edge_vision.Model.Frame.{Frame}
use edge_vision.Model.Scene.{
  SceneVersion, TrackingStatus, IntegrationStatus, not_run, tracked, lost, Pose4f,
}
use edge_vision.Model.Scene.Shared.{
  SharedSceneState, SceneAccessLease, arrive_write, acquire_write, release, publish, Result, ok,
  throws,
}
use edge_vision.Model.Scene.VersionStore.{SceneVersionStore, add}
use edge_vision.Builder.{
  InfiniTam, FrameBuildResult, BuildFailureReason, frame_consumed, frame_failed, no_failure,
  view_conversion_failed, tracking_lost,
}
use edge_vision.Builder.Pipeline.{
  Pipeline, ViewConversionFailure, prepare_view, is_converted, ensure_pipeline_for_scene, track,
  integrate, prepare_for_next_tracking, camera_to_world,
}

pub record SceneBuilder (P : Type 0) : Type 0 where
  pub shared : SharedSceneState
  pub versions : SceneVersionStore
  pub pipeline : Pipeline P

unfoldable pub make_scene_version :
    Frame → ℕ → TrackingStatus → IntegrationStatus → Pose4f → SceneVersion
make_scene_version frame id tracking integration pose = record {
  version_id = id;
  timestamp = frame.timestamp;
  last_integrated_frame_id = frame.frame_id;
  camera_to_world = pose;
  tracking_status = tracking;
  integration_status = integration;
}

abbrev pub failed_result : Frame → BuildFailureReason → FrameBuildResult
failed_result frame reason = record {
  status = frame_failed;
  failure_reason = reason;
  frame_id = frame.frame_id;
  scene_version_id = none;
}

-- What buildFrame throws is what publish throws.
abbrev pub Outcome : Type 0 → Type 0
Outcome P = Result (SceneBuilder P × FrameBuildResult)

module _ {P : Type 0} ⦃tam : InfiniTam P⦄ where
  -- buildFrame from the integration on, with the write access held.
  unfoldable pub publish_frame :
      Frame → TrackingStatus → SceneAccessLease → SceneBuilder P → Outcome P
  publish_frame frame tracking lease s =
      let i = integrate s.pipeline in
      let p = prepare_for_next_tracking (i.0) in
      let pose = camera_to_world p in
      elim (publish (some lease) s.shared) [
        | throws message ↦ throws message
        | ok (shared, lease', id) ↦ ok (
          record {
            shared = release lease' shared;
            versions = add (make_scene_version frame id tracking (i.1) pose) s.versions;
            pipeline = p;
          },
          record {
            status = frame_consumed;
            failure_reason = no_failure;
            frame_id = frame.frame_id;
            scene_version_id = some id;
          },
        )
      ]

  abbrev continue_with :
      Frame → SceneAccessLease → SceneBuilder P → Pipeline P × TrackingStatus → Outcome P
  continue_with frame lease s (p, lost) = ok (
    record s { pipeline = p; shared = release lease s.shared },
    failed_result frame tracking_lost,
  )
  continue_with frame lease s (p, status) =
      publish_frame frame status lease (record s { pipeline = p })

  -- buildFrame inside the scope of the write access.
  unfoldable pub with_access : Frame → SceneAccessLease → SceneBuilder P → Outcome P
  with_access frame lease s =
      let p = ensure_pipeline_for_scene frame s.pipeline in
      if p.is_tracking_initialised
      then continue_with frame lease s (track p)
      else publish_frame frame not_run lease (record s { pipeline = p })

  abbrev build_view : Frame → SceneBuilder P → Pipeline P × ViewConversionFailure → Outcome P
  build_view frame s (p, failure) =
      if is_converted failure
      then with_access frame (acquire_write (arrive_write s.shared)).1
          (record s { pipeline = p; shared = (acquire_write (arrive_write s.shared)).0 })
      else ok (record s { pipeline = p }, failed_result frame view_conversion_failed)

  -- SceneBuilder::buildFrame.
  unfoldable pub build_frame : Frame → SceneBuilder P → Outcome P
  build_frame frame s = build_view frame s (prepare_view frame s.pipeline)
