-- ===== src/App/PoseSeeder.antt =====
-- src/app/src/runtime/ViewerPoseSeeder.cpp. Other threads change the stores between the polls, so each
-- poll finds them as they are then; the deadline ends the list of polls.
pub mod Seeding
use edge_vision.Prelude.{ℕ, Bool, true, false, List, [], ◌∷◌, Option, none, some}
use edge_vision.Config.{ImageSize}
use edge_vision.Model.Frame.{Frame}
use edge_vision.Model.Frame.Store.{FrameStore, get_frame}
use edge_vision.Model.Scene.{SceneVersion}
use edge_vision.Model.Scene.VersionStore
use edge_vision.Model.Scene.VersionStore.{SceneVersionStore}
use edge_vision.Model.Viewer.{ViewerPose}
use edge_vision.Model.Viewer.PoseStore
use edge_vision.Model.Viewer.PoseStore.{ViewerPoseStore, update}

-- A poll of the loop, with the stores that it finds.
pub record Poll (B : Type 0) : Type 0 where
  pub frames : FrameStore B
  pub versions : SceneVersionStore
  pub poses : ViewerPoseStore

abbrev pub seeded_pose : ImageSize → SceneVersion → Option Frame → Option ViewerPose
seeded_pose size version none = none
seeded_pose size version (some frame) = some (record {
  pose = version.camera_to_world;
  intrinsics = frame.intrinsics;
  image_size = size;
  generation = 0;
})

abbrev pub seed_with :
    ViewerPoseStore → Option ViewerPose → Bool × ViewerPoseStore → Bool × ViewerPoseStore
seed_with poses none later = later
seed_with poses (some pose) later = (true, (update pose poses).0)

-- The first test of seedOnce, on the latest pose.
abbrev pub unless_posed :
    Option ViewerPose → ViewerPoseStore → Bool × ViewerPoseStore → Bool × ViewerPoseStore
unless_posed none poses seeded = seeded
unless_posed (some _) poses seeded = (true, poses)

module _ {B : Type 0} where
  abbrev pub pose_from : ImageSize → FrameStore B → Option SceneVersion → Option ViewerPose
  pose_from size frames none = none
  pose_from size frames (some version) =
      seeded_pose size version (get_frame version.last_integrated_frame_id frames)

  unfoldable pub make_initial_viewer_pose :
      ImageSize → FrameStore B → SceneVersionStore → Option ViewerPose
  make_initial_viewer_pose size frames versions =
      pose_from size frames (VersionStore.latest versions)

  -- The loop of seedOnce: whether a poll found a pose, and the pose store after it.
  unfoldable pub seed_loop : ImageSize → List (Poll B) → ViewerPoseStore → Bool × ViewerPoseStore
  unfolding make_initial_viewer_pose
  seed_loop size [] poses = (false, poses)
  seed_loop size (poll ∷ polls) poses =
      seed_with poll.poses (make_initial_viewer_pose size poll.frames poll.versions)
        (seed_loop size polls poll.poses)

  -- ViewerPoseSeeder::seedOnce.
  unfoldable pub seed_once : ImageSize → List (Poll B) → ViewerPoseStore → Bool × ViewerPoseStore
  unfolding seed_loop
  seed_once size polls poses =
      unless_posed (PoseStore.latest poses) poses (seed_loop size polls poses)
