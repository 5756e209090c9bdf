-- ===== src/Witnesses/Runners.antt =====
-- The runners' theorems on a start, a result, a stop and a join.
use edge_vision.Prelude.{arith, false, List, [], ◌∷◌, none}
use edge_vision.Capture.Frame.{submitted, make_frame_ingest_result}
use edge_vision.Capture.Frame.Runner as IngestRunner
use edge_vision.Builder.Runner as BuildRunner
use edge_vision.Builder.SceneBuilder.{failed_result}
use edge_vision.Builder.{tracking_lost}
use edge_vision.Witnesses.{frame}

abbrev ingest_runner : IngestRunner.FrameIngestorRunner
ingest_runner = record {
  stop_requested = false;
  is_running = false;
  joinable = false;
  status = record {
    running = false;
    stop_requested = false;
    ingest_attempt_count = 0;
    submitted_frame_count = 0;
    failed_ingest_count = 0;
    last_code = none;
    last_frame_id = 0;
    last_message = "";
  };
}

abbrev ingest_events : List IngestRunner.Event
ingest_events =
    IngestRunner.starts
    ∷ IngestRunner.records (make_frame_ingest_result submitted 1 "Frame accepted")
    ∷ IngestRunner.requests_stop
    ∷ IngestRunner.ends
    ∷ IngestRunner.joins
    ∷ []

run-StatusInv_example : IngestRunner.StatusInv (IngestRunner.run ingest_events ingest_runner)
run-StatusInv_example = IngestRunner.run-StatusInv ingest_events ingest_runner (ground arith)

abbrev build_runner : BuildRunner.SceneBuilderRunner
build_runner = record {
  stop_requested = false;
  is_running = false;
  joinable = false;
  status = record {
    running = false;
    stop_requested = false;
    build_attempt_count = 0;
    consumed_frame_count = 0;
    failed_frame_count = 0;
    last_frame_id = 0;
    last_scene_version_id = none;
    last_failure_reason = none;
  };
}

abbrev build_events : List BuildRunner.Event
build_events =
    BuildRunner.starts
    ∷ BuildRunner.records (failed_result (frame 1) tracking_lost)
    ∷ BuildRunner.requests_stop
    ∷ BuildRunner.ends
    ∷ BuildRunner.joins
    ∷ []

run-BuildStatusInv_example : BuildRunner.StatusInv (BuildRunner.run build_events build_runner)
run-BuildStatusInv_example = BuildRunner.run-BuildStatusInv build_events build_runner (ground arith)
