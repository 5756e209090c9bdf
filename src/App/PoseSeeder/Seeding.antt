-- ===== src/App/PoseSeeder/Seeding.antt =====
-- The ends of seedOnce in ViewerPoseSeeder.cpp.
use edge_vision.Prelude.{
  ℕ, ◌≡◌, ◌≤◌, refl, arith, ◌⊎◌, inl, inr, Bool, true, false, List, [], ◌∷◌, Option, none, some,
}
use edge_vision.Config.{ImageSize}
use edge_vision.Model.Frame.{Frame}
use edge_vision.Model.Frame.Store.{get_frame}
use edge_vision.Model.Scene.{SceneVersion}
use edge_vision.Model.Scene.VersionStore
use edge_vision.Model.Viewer.{ViewerPose}
use edge_vision.Model.Viewer.PoseStore.{ViewerPoseStore, latest, update, store_pose, at_least}
use edge_vision.App.PoseSeeder.{
  Poll, seeded_pose, pose_from, make_initial_viewer_pose, seed_with, unless_posed, seed_loop,
  seed_once,
}

-- The pose that is stored for a version and the frame it integrated last: the version's camera
-- pose, the frame's intrinsics and the requested size, at the store's next generation.
pub record Stored (size : ImageSize) (version : SceneVersion) (frame : Frame)
    (s t : ViewerPoseStore) : Type 0 where
  pub seeded : ViewerPose
  pub is_latest : latest t ≡ some seeded
  pub pose : seeded.pose ≡ version.camera_to_world
  pub intrinsics : seeded.intrinsics ≡ frame.intrinsics
  pub image_size : seeded.image_size ≡ size
  pub generation : s.next_generation ≤ seeded.generation
  pub baseline : t.relative_baseline_pose ≡ s.relative_baseline_pose

abbrev initial : ImageSize → SceneVersion → Frame → ViewerPose
initial size version frame = record {
  pose = version.camera_to_world;
  intrinsics = frame.intrinsics;
  image_size = size;
  generation = 0;
}

raised :
    (next : ℕ) (p : ViewerPose)
    → ((at_least next p).pose ≡ p.pose)
      × ((at_least next p).intrinsics ≡ p.intrinsics)
      × ((at_least next p).image_size ≡ p.image_size)
      × (next ≤ (at_least next p).generation)
raised next p = ground arith

updated :
    (size : ImageSize) (version : SceneVersion) (frame : Frame) (s : ViewerPoseStore)
    → Stored size version frame s (update (initial size version frame) s).0
unfolding update latest store_pose
updated size version frame s =
    let (pose, intrinsics, image_size, generation) =
      raised s.next_generation (initial size version frame) in
    record {
      seeded = at_least s.next_generation (initial size version frame);
      is_latest = refl;
      pose = pose;
      intrinsics = intrinsics;
      image_size = image_size;
      generation = generation;
      baseline = refl;
    }

module _ {B : Type 0} where
  -- The poll found both a version and the frame that it integrated last.
  pub record Finds (size : ImageSize) (poll : Poll B) (t : ViewerPoseStore) : Type 0 where
    pub version : SceneVersion
    pub frame : Frame
    pub has_version : VersionStore.latest poll.versions ≡ some version
    pub has_frame : get_frame version.last_integrated_frame_id poll.frames ≡ some frame
    pub stored : Stored size version frame poll.poses t

  -- The poll found no version, or not its frame.
  abbrev pub Misses : Poll B → Type 0
  Misses poll =
      (VersionStore.latest poll.versions ≡ none)
      ⊎ ((version : SceneVersion) × (VersionStore.latest poll.versions ≡ some version)
          × (get_frame version.last_integrated_frame_id poll.frames ≡ none))

  -- The first poll that finds something decides; when none does, the seeding fails.
  abbrev pub Polled : ImageSize → List (Poll B) → Bool × ViewerPoseStore → Type 0
  Polled size [] r = r.0 ≡ false
  Polled size (poll ∷ polls) r =
      ((r.0 ≡ true) × Finds size poll r.1) ⊎ (Misses poll × Polled size polls r)

  abbrev pub Seeded : ImageSize → List (Poll B) → ViewerPoseStore → Bool × ViewerPoseStore → Type 0
  Seeded size polls s r =
      ((p : ViewerPose) × (latest s ≡ some p) × (r ≡ (true, s)))
      ⊎ ((latest s ≡ none) × Polled size polls r)

  frame_decides :
      (size : ImageSize) (poll : Poll B) (polls : List (Poll B)) (version : SceneVersion)
      (found : Option Frame) (r : Bool × ViewerPoseStore)
      → VersionStore.latest poll.versions ≡ some version
      → get_frame version.last_integrated_frame_id poll.frames ≡ found
      → Polled size polls r
      → Polled size (poll ∷ polls) (seed_with poll.poses (seeded_pose size version found) r)
  frame_decides size poll polls version none r e f h = inr (inr (version, e, f), h)
  frame_decides size poll polls version (some frame) r e f h = inl (
    refl,
    record {
      version = version;
      frame = frame;
      has_version = e;
      has_frame = f;
      stored = updated size version frame poll.poses;
    },
  )

  version_decides :
      (size : ImageSize) (poll : Poll B) (polls : List (Poll B)) (found : Option SceneVersion)
      (r : Bool × ViewerPoseStore)
      → VersionStore.latest poll.versions ≡ found
      → Polled size polls r
      → Polled size (poll ∷ polls) (seed_with poll.poses (pose_from size poll.frames found) r)
  version_decides size poll polls none r e h = inr (inl e, h)
  version_decides size poll polls (some version) r e h =
      frame_decides size poll polls version (get_frame version.last_integrated_frame_id poll.frames)
        r e refl h

  seed_loop-Polled :
      (size : ImageSize) (polls : List (Poll B)) (s : ViewerPoseStore)
      → Polled size polls (seed_loop size polls s)
  unfolding seed_loop make_initial_viewer_pose
  seed_loop-Polled size [] s = refl
  seed_loop-Polled size (poll ∷ polls) s =
      version_decides size poll polls (VersionStore.latest poll.versions)
        (seed_loop size polls poll.poses) refl (seed_loop-Polled size polls poll.poses)

  start_decides :
      (size : ImageSize) (polls : List (Poll B)) (s : ViewerPoseStore) (found : Option ViewerPose)
      (r : Bool × ViewerPoseStore)
      → latest s ≡ found
      → Polled size polls r
      → Seeded size polls s (unless_posed found s r)
  start_decides size polls s none r e h = inr (e, h)
  start_decides size polls s (some p) r e h = inl (p, e, refl)

  -- Seeding does nothing and succeeds when there is a latest pose at the start. Otherwise it succeeds
  -- just when some poll finds a scene version and the frame that the version integrated last, and the
  -- first such poll stores the version's camera pose with the frame's intrinsics and the
  -- requested size as the latest pose; when no poll does, it fails.
  pub seed_once-Seeded :
      (size : ImageSize) (polls : List (Poll B)) (s : ViewerPoseStore)
      → Seeded size polls s (seed_once size polls s)
  unfolding seed_once
  seed_once-Seeded size polls s =
      start_decides size polls s (latest s) (seed_loop size polls s) refl
        (seed_loop-Polled size polls s)
