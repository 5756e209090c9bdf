-- ===== src/Capture/Frame/Ingestor.antt =====
-- src/capture/src/frame/FrameIngestor.cpp and utils/MonotonicTimestamp.cpp. The reading of the
-- steady clock is an argument.
pub mod Acceptance
pub mod Handles
use edge_vision.Prelude.{
  ℕ, ◌+◌, ◌-◌, ℤ, pos, negsuc, Bool, true, false, Option, none, some, inc64, leb_ℤ, if◌then◌else◌,
  ◌==◌,
}
use edge_vision.Model.Frame.{Frame, FrameTimestamp, FrameSubmissionResult, is_accepted}
use edge_vision.Model.Frame.ReadyQueue.{RingBuffer}
use edge_vision.Model.Frame.Store.{FrameStore, submit_frame}
use edge_vision.Capture.{K4aInterface, Machine, Calibration}
use edge_vision.Capture.Camera.{CameraCapture, capture, get_calibration}
use edge_vision.Capture.Frame.{
  FrameIngestResult, FrameBuildResult, make_frame_ingest_result, make_build_failed_result,
  make_model_rejected_result, make_submitted_result, capture_unavailable, calibration_unavailable,
  is_built,
}
use edge_vision.Capture.Frame.Builder.{build, end_capture}

-- n + 1 on std::int64_t, below its largest value.
abbrev successor : ℤ → ℤ
successor (pos n) = pos (n + 1)
successor (negsuc n) = if n == 0 then pos 0 else negsuc (n - 1)

-- nextMonotonicTimestamp: the ticks of the timestamp, which the code also keeps as the last ones. An
-- overflow of the 64-bit ticks is undefined in the code; here they are integers without a bound.
unfoldable pub next_monotonic_timestamp : ℤ → ℤ → ℤ
next_monotonic_timestamp now last_timestamp_ticks =
    let ticks : ℤ = if leb_ℤ now (pos 0) then pos 1 else now in
    if leb_ℤ ticks last_timestamp_ticks then successor last_timestamp_ticks else ticks

pub record FrameIngestor : Type 0 where
  pub next_frame_id : ℕ
  pub last_timestamp_ticks : ℤ

-- The ingestor, the camera it reads, and the store it writes.
pub record Ingest (B : Type 0) : Type 0 where
  pub ingestor : FrameIngestor
  pub store : FrameStore B

abbrev pub make_ingestor : FrameIngestor
make_ingestor = record { next_frame_id = 1; last_timestamp_ticks = pos 0 }

abbrev submission_result : FrameSubmissionResult → FrameIngestResult
submission_result r =
    if is_accepted r then make_submitted_result r else make_model_rejected_result r

module _ {B : Type 0} ⦃rb : RingBuffer B⦄ where
  -- captureAndSubmit from the build's result on. A result that was built carries a frame.
  unfoldable pub submit_build : ℕ → Ingest B → FrameBuildResult → Ingest B × FrameIngestResult
  submit_build id s result = elim (result.frame) [
    | none ↦ (s, make_build_failed_result id result)
    | some frame ↦
        if is_built result
        then (
          record s { store = (submit_frame frame s.store).0 },
          submission_result (submit_frame frame s.store).1,
        )
        else (s, make_build_failed_result id result)
  ]

-- A frame id and a timestamp are used up.
unfoldable pub advanced : {B : Type 0} → ℤ → Ingest B → Ingest B
advanced now s = record s {
  ingestor = record {
    next_frame_id = inc64 s.ingestor.next_frame_id;
    last_timestamp_ticks = next_monotonic_timestamp now s.ingestor.last_timestamp_ticks;
  };
}

module _ {B W : Type 0} ⦃rb : RingBuffer B⦄ ⦃api : K4aInterface W⦄ where
  unfoldable pub build_and_submit :
      ℤ → ℕ → Calibration → Ingest B → Machine W → (Ingest B × FrameIngestResult) × Machine W
  build_and_submit now handle calibration s m =
      let id = s.ingestor.next_frame_id in
      let ticks = next_monotonic_timestamp now s.ingestor.last_timestamp_ticks in
      let b = build (some handle) calibration id (record { ticks = ticks }) m in
      (submit_build id (advanced now s) b.0, b.1)

  unfoldable pub with_capture :
      ℤ → CameraCapture → ℕ → Ingest B → Machine W → (Ingest B × FrameIngestResult) × Machine W
  with_capture now camera handle s m =
      let k = get_calibration camera m in
      elim (k.0) [
        | none ↦ (
          (s, make_frame_ingest_result calibration_unavailable 0 "K4A calibration is unavailable"),
          k.1,
        )
        | some calibration ↦ build_and_submit now handle calibration s k.1
      ]

  -- FrameIngestor::captureAndSubmit.
  unfoldable pub capture_and_submit :
      ℤ → ℤ → CameraCapture → Ingest B → Machine W → (Ingest B × FrameIngestResult) × Machine W
  capture_and_submit timeout_ms now camera s m =
      let c = capture timeout_ms camera m in
      elim (c.0.1) [
        | none ↦
            ((s, make_frame_ingest_result capture_unavailable 0 "No K4A capture available"), c.1)
        | some handle ↦
            if c.0.0 then end_capture handle (with_capture now camera handle s c.1) else (
              (s, make_frame_ingest_result capture_unavailable 0 "No K4A capture available"),
              c.1,
            )
      ]
