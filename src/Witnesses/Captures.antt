-- ===== src/Witnesses/Captures.antt =====
-- The capture and builder theorems, with a camera that delivers and an InfiniTAM that tracks.
use edge_vision.Prelude.{
  ℕ, ◌+◌, ◌<◌, ◌≡◌, ◌≢◌, refl, arith, pos, true, false, List, [], ◌∷◌, none, some,
}
use edge_vision.Config.{greedy}
use edge_vision.Model.Frame.{Frame}
use edge_vision.Model.Frame.Store.{make_store, submit_frame, validation_context}
use edge_vision.Model.Frame.Validator.{
  validate, is_valid_size, is_valid_timestamp, is_valid_intrinsics, has_sane_image_bytes,
}
use edge_vision.Model.Scene.Shared.{make_state}
use edge_vision.Model.Scene.VersionStore.{make_version_store}
use edge_vision.Capture.{Machine, Calibration}
use edge_vision.Capture.Camera.{CameraCapture, make_camera, destroy}
use edge_vision.Capture.Camera.Protocol.{
  Event, opens, starts, stops, captures, phase_after, opens_of, closes_of, idle, run,
  destroy_closes,
}
use edge_vision.Capture.Frame.{model_rejected}
use edge_vision.Capture.{logged, unlogged, log}
use edge_vision.Capture.Camera.{capture, get_calibration}
use edge_vision.Capture.Frame.Builder.{
  end_capture, build, get_color_image, get_depth_image, create_depth_image, create_transformation,
  end_image, end_transformation, transform_depth, align_with, align_depth_to_color, make_intrinsics,
  copy_image_buffer, make_frame_image, assemble, build_aligned, build_depth, build_color,
}
use edge_vision.Capture.Frame.Validator
use edge_vision.Capture.Frame.Validator.{
  validate_request, validate_color_image, validate_depth_image, validate_intrinsics,
  validate_transformation_create, validate_transformed_depth_image_create, validate_depth_alignment,
  is_sane_image_shape,
}
use edge_vision.Model.Frame.{is_empty}
use edge_vision.Model.Frame.History
use edge_vision.Model.Frame.ReadyQueue.{try_enqueue}
use edge_vision.Capture.Frame.Builder.Handles.{Owes}
use edge_vision.Capture.Frame.Builder.Soundness.{IsWellFormed, build-IsWellFormed}
use edge_vision.Capture.Frame.Ingestor.{
  Ingest, make_ingestor, next_monotonic_timestamp, submit_build, advanced, build_and_submit,
  with_capture, capture_and_submit,
}
use edge_vision.Capture.Frame.Ingestor.Acceptance.{
  Ahead, RoomCode, capture_and_submit_rejection, capture_and_submit-Ahead,
}
use edge_vision.Capture.Frame.Ingestor.Handles.{capture_and_submit_returns_handles}
use edge_vision.Builder.SceneBuilder.{SceneBuilder, build_frame}
use edge_vision.Builder.SceneBuilder.Integration.{Ends, build_frame-Ends}
use edge_vision.Witnesses.{
  Ring, ring, frame, image, two_frames, unit_intrinsics, sdk, configuration, counting,
}

abbrev start : Machine ℕ
start = record { world = 1; calls = [] }

abbrev camera : CameraCapture
camera = make_camera ⦃api = sdk⦄ sdk

abbrev uses : List Event
uses = opens 0 ∷ starts configuration ∷ captures (pos 5) ∷ stops ∷ starts configuration ∷ []

destroy_closes_example :
    let r = run ⦃api = sdk⦄ uses (make_camera ⦃api = sdk⦄ sdk, record { world = 1; calls = [] }) in
    let t = destroy ⦃api = sdk⦄ r.0 r.1 in
    (t.0.device ≡ none)
    × (phase_after t.1.calls ≡ some idle)
    × ((d : ℕ) → opens_of d t.1.calls ≡ closes_of d t.1.calls)
destroy_closes_example = destroy_closes ⦃api = sdk⦄ uses 1

-- A camera that is started, and a new ingestor with a new store.
abbrev started_camera : CameraCapture
started_camera = record { device = some 7; is_started = true; config = configuration }

abbrev ingest : Ingest Ring
ingest = record { ingestor = make_ingestor; store = make_store ⦃rb = ring⦄ two_frames }

ingest-Ahead : Ahead ingest
unfolding make_store
ingest-Ahead = ground arith

capture_and_submit-Ahead_example :
    Ahead
      (capture_and_submit ⦃rb = ring⦄ ⦃api = sdk⦄
        (pos 1000)
        (pos 5)
        started_camera
        ingest
        start).0.0
capture_and_submit-Ahead_example =
    capture_and_submit-Ahead ⦃rb = ring⦄ ⦃api = sdk⦄ (pos 1000) (pos 5) started_camera ingest start
      ingest-Ahead (omega arith)

capture_and_submit_returns_handles_example :
    Owes
      (λ r. true)
      0
      start
      (capture_and_submit ⦃rb = ring⦄ ⦃api = sdk⦄ (pos 1000) (pos 5) started_camera ingest start).1
capture_and_submit_returns_handles_example =
    capture_and_submit_returns_handles (λ r. true) ⦃rb = ring⦄ ⦃api = sdk⦄ (pos 1000) (pos 5)
      started_camera ingest start

abbrev builder : SceneBuilder ℕ
builder = record {
  shared = make_state 1 (record { read_policy = greedy });
  versions = make_version_store 2;
  pipeline = record {
    state = 0;
    view_layout = none;
    sizes = none;
    is_tracking_initialised = false;
  };
}

no_writer :
    (builder.shared.writer_active ≡ false)
    × (builder.shared.waiting_writer_count + 1 < 18446744073709551616)
unfolding make_state
no_writer = ground arith

build_frame-Ends_example :
    Ends ⦃tam = counting⦄ (frame 1) builder (build_frame ⦃tam = counting⦄ (frame 1) builder)
build_frame-Ends_example =
    build_frame-Ends ⦃tam = counting⦄ (frame 1) builder (no_writer.0) (no_writer.1)

-- The frame that the camera delivers first.
abbrev first_frame : Frame
first_frame = record {
  frame_id = 1;
  timestamp = record { ticks = pos 5 };
  rgb = image 8;
  depth = image 4;
  intrinsics = unit_intrinsics;
}

abbrev calibration : Calibration
calibration = record { color_intrinsics = unit_intrinsics }

first_built :
    (build ⦃api = sdk⦄ (some 1) calibration 1 (record { ticks = pos 5 }) start).0.frame
    ≡ some first_frame
unfolding build get_color_image get_depth_image create_depth_image create_transformation end_image
    end_transformation transform_depth align_with align_depth_to_color make_intrinsics
    copy_image_buffer make_frame_image assemble build_aligned build_depth build_color logged
    unlogged log validate_request validate_color_image validate_depth_image validate_intrinsics
    validate_transformation_create validate_transformed_depth_image_create validate_depth_alignment
    is_sane_image_shape is_valid_size is_valid_timestamp is_valid_intrinsics Validator.is_valid_size
    Validator.is_valid_timestamp Validator.is_valid_intrinsics
first_built = refl

build-IsWellFormed_example :
    (first_frame.frame_id ≢ 0)
    × (is_valid_timestamp (record { ticks = pos 5 }) ≡ true)
    × IsWellFormed 1 (record { ticks = pos 5 }) first_frame
build-IsWellFormed_example =
    build-IsWellFormed ⦃api = sdk⦄ (some 1) calibration 1 (record { ticks = pos 5 }) start
      first_frame first_built

-- A store whose ready queue has no room.
abbrev congested : Ingest Ring
congested = record ingest {
  store = record (ingest.store) {
    ready_queue = record {
      queue = record { items = []; room = 0 };
      ready_frame_ids = [];
      in_flight_frame_ids = [];
    };
  };
}

congested-Ahead : Ahead congested
unfolding make_store
congested-Ahead = ground arith

congested_rejects :
    (capture_and_submit ⦃rb = ring⦄ ⦃api = sdk⦄
      (pos 1000)
      (pos 5)
      started_camera
      congested
      start).0.1.code
    ≡ model_rejected
unfolding capture_and_submit with_capture build_and_submit submit_build advanced end_capture capture
    get_calibration next_monotonic_timestamp submit_frame validate validation_context
    History.latest_frame_id History.latest_timestamp History.size History.find_oldest_evictable
    History.find_id make_store is_empty has_sane_image_bytes try_enqueue build get_color_image
    get_depth_image create_depth_image create_transformation end_image end_transformation
    transform_depth align_with align_depth_to_color make_intrinsics copy_image_buffer
    make_frame_image assemble build_aligned build_depth build_color logged unlogged log
    validate_request validate_color_image validate_depth_image validate_intrinsics
    validate_transformation_create validate_transformed_depth_image_create validate_depth_alignment
    is_sane_image_shape is_valid_size is_valid_timestamp is_valid_intrinsics Validator.is_valid_size
    Validator.is_valid_timestamp Validator.is_valid_intrinsics
congested_rejects = refl

capture_and_submit_rejection_example :
    RoomCode
      (capture_and_submit ⦃rb = ring⦄ ⦃api = sdk⦄
        (pos 1000)
        (pos 5)
        started_camera
        congested
        start).0.1.submission_code
capture_and_submit_rejection_example =
    capture_and_submit_rejection ⦃rb = ring⦄ ⦃api = sdk⦄ (pos 1000) (pos 5) started_camera congested
      start congested-Ahead congested_rejects
