-- ===== src/Builder/SceneBuilder/Integration.antt =====
-- What a call of buildFrame in SceneBuilder.cpp leaves behind.
use edge_vision.Prelude.{
  Bool-cases, ℕ, ◌+◌, ◌<◌, ◌≡◌, refl, ◌⊎◌, inl, inr, arith, Bool, true, false, none, some, inc64,
  u64_mod,
}
use edge_vision.Model.Frame.{Frame}
use edge_vision.Model.Scene.{SceneVersion, TrackingStatus, integrated, not_run, tracked}
use edge_vision.Model.Scene.Shared.{
  SharedSceneState, SceneAccessLease, arrive_write, acquire_write, release, publish, ok, throws,
}
use edge_vision.Model.Scene.VersionStore.{add}
use edge_vision.Builder.{
  InfiniTam, FrameBuildResult, frame_consumed, frame_failed, no_failure, tracking_lost,
  view_conversion_failed,
}
use edge_vision.Builder.Pipeline.{
  Pipeline, prepare_view, is_converted, ensure_pipeline_for_scene, track, integrate,
  prepare_for_next_tracking, camera_to_world,
}
use edge_vision.Builder.SceneBuilder.{
  SceneBuilder, Outcome, continue_with, failed_result, make_scene_version, publish_frame,
  with_access, build_frame,
}

module _ {P : Type 0} ⦃tam : InfiniTam P⦄ where
  -- The pipeline that tracking finds.
  abbrev pub ready : Frame → SceneBuilder P → Pipeline P
  ready frame s = ensure_pipeline_for_scene frame (prepare_view frame s.pipeline).0

  abbrev pub IsConverted : Frame → SceneBuilder P → Bool → Type 0
  IsConverted frame s b = is_converted (prepare_view frame s.pipeline).1 ≡ b

  -- The first frame of a pipeline is not tracked, each later one is, and with success.
  abbrev pub Tracks : Pipeline P → TrackingStatus → Type 0
  Tracks p status =
      ((p.is_tracking_initialised ≡ false) × (status ≡ not_run))
      ⊎ ((p.is_tracking_initialised ≡ true) × ((tam.track p.state).0 ≡ true) × (status ≡ tracked))

  abbrev pub LosesTracking : Pipeline P → Type 0
  LosesTracking p = (p.is_tracking_initialised ≡ true) × ((tam.track p.state).0 ≡ false)

  -- The frame went into the scene: the scene's version is the next one, and the version store has it,
  -- under the frame's id and timestamp, with the pose that tracking ended at.
  pub record Consumed (frame : Frame) (s s' : SceneBuilder P) (r : FrameBuildResult) : Type 0 where
    pub status : r.status ≡ frame_consumed
    pub no_reason : r.failure_reason ≡ no_failure
    pub reported : r.scene_version_id ≡ some (inc64 s.shared.scene_version_id)
    pub published :
        s'.shared ≡ record (s.shared) { scene_version_id = inc64 s.shared.scene_version_id }
    pub version : SceneVersion
    pub recorded : s'.versions ≡ add version s.versions
    pub version_id : version.version_id ≡ inc64 s.shared.scene_version_id
    pub timestamp : version.timestamp ≡ frame.timestamp
    pub last_frame : version.last_integrated_frame_id ≡ frame.frame_id
    pub pose : version.camera_to_world ≡ tam.current_pose s'.pipeline.state
    pub integration : version.integration_status ≡ integrated
    pub converted : IsConverted frame s true
    pub tracking : Tracks (ready frame s) version.tracking_status
    pub initialised : s'.pipeline.is_tracking_initialised ≡ true

  -- The frame failed, as its view could not be made or its tracking was lost, and neither the shared
  -- scene nor the version store changed.
  pub record Failed (frame : Frame) (s s' : SceneBuilder P) (r : FrameBuildResult) : Type 0 where
    pub status : r.status ≡ frame_failed
    pub reported : r.scene_version_id ≡ none
    pub unpublished : s'.shared ≡ s.shared
    pub unrecorded : s'.versions ≡ s.versions
    pub reason :
        (IsConverted frame s false × (r.failure_reason ≡ view_conversion_failed))
        ⊎ (IsConverted frame s true
            × LosesTracking (ready frame s)
            × (r.failure_reason ≡ tracking_lost))

  -- A build that throws has neither outcome.
  abbrev pub Ends : Frame → SceneBuilder P → Outcome P → Type 0
  Ends frame s (throws message) = ⊥
  Ends frame s (ok (s', r)) =
      (r.frame_id ≡ frame.frame_id) × (Consumed frame s s' r ⊎ Failed frame s s' r)

-- A writer's lease is that of the scene it holds, so publishing under it succeeds.
publish_held :
    (s : SharedSceneState)
    → publish (some (acquire_write (arrive_write s)).1) (acquire_write (arrive_write s)).0
      ≡ ok (
        record (acquire_write (arrive_write s)).0 { scene_version_id = inc64 s.scene_version_id },
        record (acquire_write (arrive_write s)).1 { version = inc64 s.scene_version_id },
        inc64 s.scene_version_id,
      )
unfolding publish acquire_write arrive_write
publish_held s = ground arith

-- The count of waiting writers is back to what it was.
no_longer_waiting :
    (s : SharedSceneState)
    → s.waiting_writer_count + 1 < u64_mod
    → (acquire_write (arrive_write s)).0.waiting_writer_count ≡ s.waiting_writer_count
unfolding acquire_write arrive_write
no_longer_waiting s n = omega arith

released_held :
    (s : SharedSceneState) (version lease_version : ℕ)
    → s.writer_active ≡ false
    → s.waiting_writer_count + 1 < u64_mod
    → release
        (record (acquire_write (arrive_write s)).1 { version = lease_version })
        (record (acquire_write (arrive_write s)).0 { scene_version_id = version })
      ≡ record s { scene_version_id = version }
unfolding release acquire_write arrive_write
released_held s version lease_version w n = ground (arith, no_longer_waiting s n)

released_plain :
    (s : SharedSceneState)
    → s.writer_active ≡ false
    → s.waiting_writer_count + 1 < u64_mod
    → release (acquire_write (arrive_write s)).1 (acquire_write (arrive_write s)).0 ≡ s
unfolding release acquire_write arrive_write
released_plain s w n = ground (arith, no_longer_waiting s n)

module _ {P : Type 0} ⦃tam : InfiniTam P⦄ where
  -- The state while the access is held.
  abbrev held : SceneBuilder P → Pipeline P → SceneBuilder P
  held s p = record s { pipeline = p; shared = (acquire_write (arrive_write s.shared)).0 }

  abbrev lease_of : SceneBuilder P → SceneAccessLease
  lease_of s = (acquire_write (arrive_write s.shared)).1

  publish_frame-Ends :
      (frame : Frame) (t : TrackingStatus) (s : SceneBuilder P) (p : Pipeline P)
      → s.shared.writer_active ≡ false
      → s.shared.waiting_writer_count + 1 < u64_mod
      → IsConverted frame s true
      → Tracks (ready frame s) t
      → Ends frame s (publish_frame frame t (lease_of s) (held s p))
  unfolding publish_frame make_scene_version integrate prepare_for_next_tracking camera_to_world
  publish_frame-Ends frame t s p w n c h =
      rw (publish_held s.shared, publish_frame)
        (
          refl,
          inl (record {
            status = refl;
            no_reason = refl;
            reported = refl;
            published =
                released_held s.shared (inc64 s.shared.scene_version_id)
                  (inc64 s.shared.scene_version_id) w n;
            version = _;
            recorded = refl;
            version_id = refl;
            timestamp = refl;
            last_frame = refl;
            pose = refl;
            integration = refl;
            converted = c;
            tracking = h;
            initialised = refl;
          }),
        )

  lost-Ends :
      (frame : Frame) (s : SceneBuilder P) (p : Pipeline P)
      → s.shared.writer_active ≡ false
      → s.shared.waiting_writer_count + 1 < u64_mod
      → IsConverted frame s true
      → LosesTracking (ready frame s)
      → Ends frame s (
          ok (
            record (held s p) { shared = release (lease_of s) (held s p).shared },
            failed_result frame tracking_lost,
          ))
  lost-Ends frame s p w n c h = (
    refl,
    inr (record {
      status = refl;
      reported = refl;
      unpublished = released_plain s.shared w n;
      unrecorded = refl;
      reason = inr (c, h, refl);
    }),
  )

  unconverted-Ends :
      (frame : Frame) (s : SceneBuilder P) (p : Pipeline P)
      → IsConverted frame s false
      → Ends frame s (ok (record s { pipeline = p }, failed_result frame view_conversion_failed))
  unconverted-Ends frame s p c = (
    refl,
    inr (record {
      status = refl;
      reported = refl;
      unpublished = refl;
      unrecorded = refl;
      reason = inl (c, refl);
    }),
  )

  tracked-Ends :
      (frame : Frame) (s : SceneBuilder P)
      → s.shared.writer_active ≡ false
      → s.shared.waiting_writer_count + 1 < u64_mod
      → IsConverted frame s true
      → (ready frame s).is_tracking_initialised ≡ true
      → Ends frame s (
          continue_with frame
            (lease_of s)
            (held s (prepare_view frame s.pipeline).0)
            (track (ready frame s)))
  unfolding track
  tracked-Ends frame s w n c i =
      let p = ready frame s in
      elim (Bool-cases (tam.track p.state).0) [
        | inl y ↦ rw y (publish_frame-Ends frame tracked s (track p).0 w n c (inr (i, y, refl)))
        | inr l ↦ rw l (lost-Ends frame s (track p).0 w n c (i, l))
      ]

  with_access-Ends :
      (frame : Frame) (s : SceneBuilder P)
      → s.shared.writer_active ≡ false
      → s.shared.waiting_writer_count + 1 < u64_mod
      → IsConverted frame s true
      → Ends frame s (with_access frame (lease_of s) (held s (prepare_view frame s.pipeline).0))
  unfolding with_access ensure_pipeline_for_scene
  with_access-Ends frame s w n c = elim (Bool-cases (ready frame s).is_tracking_initialised) [
    | inl i ↦ rw i (tracked-Ends frame s w n c i)
    | inr i ↦ rw i (publish_frame-Ends frame not_run s (ready frame s) w n c (inl (i, refl)))
  ]

  -- Building a frame, in a scene that no writer holds, always gives a result, and never throws: the
  -- frame's id, with one of two ends. Either its view was made and it is the first of its pipeline or its
  -- tracking succeeded, and then the scene has the next version, and the version store has this
  -- version with the frame's id and timestamp, the pose that tracking ended at and its status. Or
  -- its view could not be made or its tracking was lost, which the result says, and the shared scene and
  -- the version store are as they were.
  pub build_frame-Ends :
      (frame : Frame) (s : SceneBuilder P)
      → s.shared.writer_active ≡ false
      → s.shared.waiting_writer_count + 1 < u64_mod
      → Ends frame s (build_frame frame s)
  unfolding build_frame
  build_frame-Ends frame s w n =
      elim (Bool-cases (is_converted (prepare_view frame s.pipeline).1)) [
        | inl c ↦ rw c (with_access-Ends frame s w n c)
        | inr c ↦ rw c (unconverted-Ends frame s (prepare_view frame s.pipeline).0 c)
      ]
