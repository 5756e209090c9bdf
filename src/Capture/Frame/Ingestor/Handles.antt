-- ===== src/Capture/Frame/Ingestor/Handles.antt =====
-- The handles of the SDK over a whole round of FrameIngestor.cpp.
use edge_vision.Prelude.{
  ℕ, arith, ℤ, Bool, true, false, Option, none, some, inl, inr, Option-cases, Bool-cases,
}
use edge_vision.Model.Frame.ReadyQueue.{RingBuffer}
use edge_vision.Capture.{K4aInterface, Machine, logged, unlogged, log}
use edge_vision.Capture.Camera.{CameraCapture, capture, get_calibration}
use edge_vision.Capture.Frame.Builder.{end_capture}
use edge_vision.Capture.Frame.Builder.Handles.{
  Resource, one, acquisitions, given_back, Owes, build_returns_handles,
}
use edge_vision.Capture.Frame.Ingestor.{
  Ingest, next_monotonic_timestamp, build_and_submit, with_capture, capture_and_submit,
}

module _ (p : Resource → Bool) where
  abbrev captured_weight : Bool → Option ℕ → ℕ
  captured_weight true (some h) = one p (Resource.capture h)
  captured_weight true none = 0
  captured_weight false h = 0

  module _ {W : Type 0} ⦃api : K4aInterface W⦄ where
    capture_owed :
        (timeout : ℤ) (camera : CameraCapture) (m : Machine W)
        → Owes p
            (captured_weight (capture timeout camera m).0.0 (capture timeout camera m).0.1)
            m
            (capture timeout camera m).1
    unfolding capture acquisitions given_back logged unlogged
    capture_owed timeout camera m = ground arith

    calibration_owed :
        (camera : CameraCapture) (m : Machine W) → Owes p 0 m (get_calibration camera m).1
    unfolding get_calibration unlogged
    calibration_owed camera m = ground arith

  module _ {B W : Type 0} ⦃rb : RingBuffer B⦄ ⦃api : K4aInterface W⦄ where
    with_capture_owed :
        (now : ℤ) (camera : CameraCapture) (h : ℕ) (s : Ingest B) (m : Machine W)
        → Owes p 0 m (with_capture now camera h s m).1
    unfolding with_capture build_and_submit
    with_capture_owed now camera h s m = elim (Option-cases (get_calibration camera m).0) [
      | inl k ↦ ground (arith, k, calibration_owed camera m)
      | inr (c, k) ↦ ground (
        arith,
        k,
        calibration_owed camera m,
        build_returns_handles p (some h) c s.ingestor.next_frame_id
            (record { ticks = next_monotonic_timestamp now s.ingestor.last_timestamp_ticks })
            (get_calibration camera m).1,
      )
    ]

    -- A round of the ingestor gives back each capture, image and transformation as often as it takes
    -- it from the SDK, however the round ends.
    pub capture_and_submit_returns_handles :
        (timeout now : ℤ) (camera : CameraCapture) (s : Ingest B) (m : Machine W)
        → Owes p 0 m (capture_and_submit timeout now camera s m).1
    unfolding capture_and_submit end_capture log acquisitions given_back
    capture_and_submit_returns_handles timeout now camera s m =
        elim (Option-cases (capture timeout camera m).0.1) [
          | inl e ↦ elim (Bool-cases (capture timeout camera m).0.0) [
            | inl y ↦ ground (arith, e, y, capture_owed timeout camera m)
            | inr y ↦ ground (arith, e, y, capture_owed timeout camera m)
          ]
          | inr (h, e) ↦ elim (Bool-cases (capture timeout camera m).0.0) [
            | inl y ↦ ground (
              arith,
              e,
              y,
              capture_owed timeout camera m,
              with_capture_owed now camera h s (capture timeout camera m).1,
            )
            | inr y ↦ ground (arith, e, y, capture_owed timeout camera m)
          ]
        ]
