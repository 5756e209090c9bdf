-- ===== src/Capture/Frame/Ingestor/Acceptance.antt =====
-- The frames that FrameIngestor.cpp submits, against what the model accepts.
use edge_vision.Prelude.{
  ℕ, zero, suc, ◌+◌, ◌<◌, ◌≡◌, ◌≢◌, refl, ◌⊎◌, inl, inr, arith, ℤ, pos, true, false, Option, none,
  some, Option-cases, Bool-cases, ltb_ℤ, u64_mod, inc64,
}
use edge_vision.Model.Frame.{
  Frame, FrameTimestamp, FrameSubmissionCode, FrameSubmissionResult, is_accepted, accepted,
  history_full, ready_frame_queue_full,
}
use edge_vision.Model.Frame.Validator.{
  FrameValidationContext, validate, is_valid_timestamp, not_newer_id, not_newer_timestamp,
}
use edge_vision.Model.Frame.ReadyQueue.{RingBuffer, ReadyFrameQueue, try_enqueue}
use edge_vision.Model.Frame.Store.{
  FrameStore, evict_loop, evict_old_frames, record_rejected_frame, record_status, store_frame,
  next_to_evict, drop_frame, submit_frame, validation_context,
}
use edge_vision.Model.Frame.History
use edge_vision.Capture.{K4aInterface, Machine, Calibration}
use edge_vision.Capture.Camera.{CameraCapture, capture, get_calibration}
use edge_vision.Capture.Frame.{FrameBuildResult, model_rejected, is_built}
use edge_vision.Capture.Frame.Builder.{build, end_capture}
use edge_vision.Capture.Frame.Builder.Soundness.{IsWellFormed, build-IsWellFormed}
use edge_vision.Capture.Frame.Ingestor.{
  Ingest, next_monotonic_timestamp, submit_build, advanced, build_and_submit, with_capture,
  capture_and_submit,
}

-- The next timestamp is positive and later than the last one, whatever the clock reads.
pub next_monotonic_timestamp_rises :
    (now last : ℤ)
    → (ltb_ℤ (pos 0) (next_monotonic_timestamp now last) ≡ true)
      × (ltb_ℤ last (next_monotonic_timestamp now last) ≡ true)
unfolding next_monotonic_timestamp
next_monotonic_timestamp_rises now last = ground arith

IsRoomCode : FrameSubmissionCode → Type 0
IsRoomCode code = (code ≡ accepted) ⊎ (code ≡ history_full) ⊎ (code ≡ ready_frame_queue_full)

validate_well_formed :
    (id : ℕ) (ts : FrameTimestamp) (f : Frame) (c : FrameValidationContext)
    → IsWellFormed id ts f
    → id ≢ 0
    → is_valid_timestamp ts ≡ true
    → not_newer_id c.latest_frame_id id ≡ false
    → not_newer_timestamp c.latest_timestamp ts ≡ false
    → ((validate f c).code ≡ accepted) ⊎ ((validate f c).code ≡ history_full)
unfolding validate
validate_well_formed id ts f c w n v i t = ground arith

module _ {B : Type 0} where
  evict_loop_latest :
      (fuel : ℕ) (s : FrameStore B)
      → (evict_loop fuel s).history.latest_frame ≡ s.history.latest_frame
  unfolding evict_loop drop_frame History.remove_frame
  evict_loop_latest zero s = refl
  evict_loop_latest (suc fuel) s = elim (Option-cases (next_to_evict s)) [
    | inl e ↦ ground (arith, e)
    | inr (id, e) ↦ ground (arith, e, evict_loop_latest fuel (drop_frame id s))
  ]

-- The latest accepted frame is older than what the ingestor submits next.
abbrev NotAfter : Option Frame → ℤ → Type 0
NotAfter none last = Unit {0}
NotAfter (some f) last = ltb_ℤ last f.timestamp.ticks ≡ false

pub record Ahead {B : Type 0} (s : Ingest B) : Type 0 where
  pub id_pos : s.ingestor.next_frame_id ≢ 0
  pub id_ahead :
      not_newer_id (History.id_of s.store.history.latest_frame) s.ingestor.next_frame_id ≡ false
  pub time_ahead : NotAfter s.store.history.latest_frame s.ingestor.last_timestamp_ticks

abbrev pub RoomCode : Option FrameSubmissionCode → Type 0
RoomCode c = (c ≡ some history_full) ⊎ (c ≡ some ready_frame_queue_full)

module _ {B : Type 0} ⦃rb : RingBuffer B⦄ where
  submit_code :
      (f : Frame) (s : FrameStore B)
      → is_accepted (submit_frame f s).1 ≡ false
      → ((validate f (validation_context s)).code ≡ accepted)
        ⊎ ((validate f (validation_context s)).code ≡ history_full)
      → RoomCode (some (submit_frame f s).1.code)
  unfolding submit_frame
  submit_code f s r v = ground arith

  fresh_frame_code :
      (id : ℕ) (ts : FrameTimestamp) (f : Frame) (s : FrameStore B)
      → IsWellFormed id ts f
      → id ≢ 0
      → is_valid_timestamp ts ≡ true
      → not_newer_id (History.id_of s.history.latest_frame) id ≡ false
      → not_newer_timestamp (History.timestamp_of s.history.latest_frame) ts ≡ false
      → is_accepted (submit_frame f s).1 ≡ false
      → RoomCode (some (submit_frame f s).1.code)
  unfolding validation_context History.latest_frame_id History.latest_timestamp
  fresh_frame_code id ts f s w n v i t r =
      submit_code f s r (validate_well_formed id ts f (validation_context s) w n v i t)

  submit_build_code :
      (id : ℕ) (s : Ingest B) (result : FrameBuildResult)
      → ((f : Frame)
          → result.frame ≡ some f
          → is_accepted (submit_frame f s.store).1 ≡ false
          → RoomCode (some (submit_frame f s.store).1.code))
      → (submit_build id s result).1.code ≡ model_rejected
      → RoomCode (submit_build id s result).1.submission_code
  unfolding submit_build
  submit_build_code id s result w h = elim (Option-cases (result.frame)) [
    | inl n ↦ ground (arith, n)
    | inr (f, n) ↦ elim (Bool-cases (is_accepted (submit_frame f s.store).1)) [
      | inl y ↦ ground (arith, n, y)
      | inr y ↦ ground (arith, n, y, w f n y)
    ]
  ]

  stored_latest :
      (f : Frame) (r : FrameSubmissionResult) (q : ReadyFrameQueue B) (s : FrameStore B)
      → (store_frame f r q s).history.latest_frame ≡ some f
  unfolding record_status store_frame evict_old_frames History.add_frame
  stored_latest f r q s = evict_loop_latest _ _

  -- What the store holds after a submission is either what it held or the new frame.
  submit_latest :
      (f : Frame) (s : FrameStore B)
      → ((submit_frame f s).0.history.latest_frame ≡ s.history.latest_frame)
        ⊎ ((submit_frame f s).0.history.latest_frame ≡ some f)
  unfolding submit_frame record_rejected_frame record_status
  submit_latest f s = elim (Option-cases (try_enqueue s.ready_queue f)) [
    | inl e ↦ ground (arith, e)
    | inr (q, e) ↦ ground (arith, e, stored_latest f (validate f (validation_context s)) q s)
  ]

later_timestamp :
    (latest : Option Frame) (now last : ℤ)
    → NotAfter latest last
    → not_newer_timestamp
        (History.timestamp_of latest)
        (record { ticks = next_monotonic_timestamp now last })
      ≡ false
later_timestamp none now last h = refl
later_timestamp (some f) now last h = ground (arith, next_monotonic_timestamp_rises now last)

not_before :
    (latest : Option Frame) (now last : ℤ)
    → NotAfter latest last
    → NotAfter latest (next_monotonic_timestamp now last)
not_before none now last h = h
not_before (some f) now last h = ground (arith, next_monotonic_timestamp_rises now last)

still_ahead :
    (latest : Option Frame) (id : ℕ)
    → not_newer_id (History.id_of latest) id ≡ false
    → not_newer_id (History.id_of latest) (id + 1) ≡ false
still_ahead none id h = refl
still_ahead (some f) id h = ground arith

next_id : (id : ℕ) → id + 1 < u64_mod → inc64 id ≡ id + 1
next_id id h = omega arith

advanced-Ahead :
    {B : Type 0} (now : ℤ) (s : Ingest B)
    → Ahead s
    → s.ingestor.next_frame_id + 1 < u64_mod
    → Ahead (advanced now s)
unfolding advanced
advanced-Ahead now s a h =
    let n = next_id s.ingestor.next_frame_id h in
    record {
      id_pos = ground (arith, n);
      id_ahead =
          rw n (still_ahead s.store.history.latest_frame s.ingestor.next_frame_id a.id_ahead);
      time_ahead =
          not_before s.store.history.latest_frame now s.ingestor.last_timestamp_ticks a.time_ahead;
    }

-- The ingestor has used the frame's id and its timestamp up.
abbrev UsedUp : {B : Type 0} → Ingest B → Frame → Type 0
UsedUp s f =
    (f.frame_id < s.ingestor.next_frame_id) × (f.timestamp.ticks ≡ s.ingestor.last_timestamp_ticks)

module _ {B : Type 0} ⦃rb : RingBuffer B⦄ where
  used_up :
      (now : ℤ) (s : Ingest B) (f : Frame)
      → s.ingestor.next_frame_id + 1 < u64_mod
      → IsWellFormed s.ingestor.next_frame_id
          (record { ticks = next_monotonic_timestamp now s.ingestor.last_timestamp_ticks })
          f
      → UsedUp (advanced now s) f
  unfolding advanced
  used_up now s f b w = ground (arith, next_id s.ingestor.next_frame_id b)

  submitted-Ahead :
      (f : Frame) (s : Ingest B)
      → Ahead s
      → UsedUp s f
      → Ahead (record s { store = (submit_frame f s.store).0 })
  submitted-Ahead f s a u = elim (submit_latest f s.store) [
    | inl e ↦ record {
      id_pos = a.id_pos;
      id_ahead = rw e a.id_ahead;
      time_ahead = rw e a.time_ahead;
    }
    | inr e ↦ record {
      id_pos = a.id_pos;
      id_ahead = rw e (ground (arith, u));
      time_ahead = rw e (ground (arith, u));
    }
  ]

  submit_build-Ahead :
      (id : ℕ) (s : Ingest B) (result : FrameBuildResult)
      → Ahead s
      → ((f : Frame) → result.frame ≡ some f → UsedUp s f)
      → Ahead (submit_build id s result).0
  unfolding submit_build
  submit_build-Ahead id s result a u = elim (Option-cases (result.frame)) [
    | inl n ↦ ground (arith, n, a)
    | inr (f, n) ↦ elim (Bool-cases (is_built result)) [
      | inl y ↦ ground (arith, n, y, submitted-Ahead f s a (u f n))
      | inr y ↦ ground (arith, n, y, a)
    ]
  ]

module _ {B W : Type 0} ⦃rb : RingBuffer B⦄ ⦃api : K4aInterface W⦄ where
  build_and_submit_code :
      (now : ℤ) (h : ℕ) (c : Calibration) (s : Ingest B) (m : Machine W)
      → Ahead s
      → (build_and_submit now h c s m).0.1.code ≡ model_rejected
      → RoomCode (build_and_submit now h c s m).0.1.submission_code
  unfolding build_and_submit advanced
  build_and_submit_code now h c s m a r =
      let ts : FrameTimestamp = record {
        ticks = next_monotonic_timestamp now s.ingestor.last_timestamp_ticks;
      } in
      let id = s.ingestor.next_frame_id in
      submit_build_code id (advanced now s) (build (some h) c id ts m).0
        (λ f e.
          let w = build-IsWellFormed (some h) c id ts m f e in
          fresh_frame_code id ts f s.store (w.2) (w.0) (w.1) a.id_ahead (
            later_timestamp s.store.history.latest_frame now s.ingestor.last_timestamp_ticks
              a.time_ahead))
        r

  -- A frame that the ingestor submits is refused by the model only because the history has no room
  -- or the ready queue is full, never for the frame itself: for an ingestor whose next id and last
  -- timestamp are ahead of the latest accepted frame.
  pub capture_and_submit_rejection :
      (timeout now : ℤ) (camera : CameraCapture) (s : Ingest B) (m : Machine W)
      → Ahead s
      → (capture_and_submit timeout now camera s m).0.1.code ≡ model_rejected
      → RoomCode (capture_and_submit timeout now camera s m).0.1.submission_code
  unfolding capture_and_submit with_capture end_capture
  capture_and_submit_rejection timeout now camera s m a r =
      elim (Option-cases (capture timeout camera m).0.1) [
        | inl e ↦ ground (arith, e)
        | inr (h, e) ↦ elim (Option-cases (get_calibration camera (capture timeout camera m).1).0) [
          | inl k ↦ ground (arith, e, k)
          | inr (c, k) ↦ ground (
            arith,
            e,
            k,
            build_and_submit_code now h c s (get_calibration camera (capture timeout camera m).1).1
                a,
          )
        ]
      ]

  build_and_submit-Ahead :
      (now : ℤ) (h : ℕ) (c : Calibration) (s : Ingest B) (m : Machine W)
      → Ahead s
      → s.ingestor.next_frame_id + 1 < u64_mod
      → Ahead (build_and_submit now h c s m).0.0
  unfolding build_and_submit
  build_and_submit-Ahead now h c s m a b =
      let ts : FrameTimestamp = record {
        ticks = next_monotonic_timestamp now s.ingestor.last_timestamp_ticks;
      } in
      let id = s.ingestor.next_frame_id in
      submit_build-Ahead id (advanced now s) (build (some h) c id ts m).0 (advanced-Ahead now s a b)
        (λ f e. used_up now s f b (build-IsWellFormed (some h) c id ts m f e).2)

  -- Each round keeps the ingestor ahead of the latest accepted frame, while its ids have not reached
  -- the largest 64-bit number.
  pub capture_and_submit-Ahead :
      (timeout now : ℤ) (camera : CameraCapture) (s : Ingest B) (m : Machine W)
      → Ahead s
      → s.ingestor.next_frame_id + 1 < u64_mod
      → Ahead (capture_and_submit timeout now camera s m).0.0
  unfolding capture_and_submit with_capture end_capture
  capture_and_submit-Ahead timeout now camera s m a b =
      elim (Option-cases (capture timeout camera m).0.1) [
        | inl e ↦ ground (arith, e, a)
        | inr (h, e) ↦ elim (Bool-cases (capture timeout camera m).0.0) [
          | inr n ↦ ground (arith, e, n, a)
          | inl y ↦ elim (Option-cases (get_calibration camera (capture timeout camera m).1).0) [
            | inl k ↦ ground (arith, e, y, k, a)
            | inr (c, k) ↦ ground (
              arith,
              e,
              y,
              k,
              build_and_submit-Ahead now h c s
                  (get_calibration camera (capture timeout camera m).1).1 a b,
            )
          ]
        ]
      ]
