-- ===== src/Witnesses/Apps.antt =====
-- The debug run's theorems on a dump of one frame.
use edge_vision.Prelude.{ℕ, ◌≡◌, refl, arith, pos, Bool, true, false, [], ◌∷◌, some}
use edge_vision.Config.{ViewerDumpConfig}
use edge_vision.Model.Frame.Store.{make_store}
use edge_vision.Model.Scene.VersionStore.{make_version_store, add}
use edge_vision.Model.Scene.{SceneVersion, not_run, integrated}
use edge_vision.Model.Frame.History.{add_frame, empty_history}
use edge_vision.Model.Viewer.{RenderOutput, has_rgb}
use edge_vision.Model.Frame.{is_empty}
use edge_vision.Model.Viewer.OutputStore.{
  RenderOutputStore, make_output_store, publish, trim, recent,
}
use edge_vision.Model.Viewer.PoseStore.{empty_store}
use edge_vision.App.PoseSeeder.{Poll, seed_once}
use edge_vision.App.PoseSeeder.Seeding.{Seeded, seed_once-Seeded}
use edge_vision.App.FrameDumper.{
  ViewerFrameDumper, make_dumper, process_new_outputs, process_all, process_output, handle_output,
  write_output, is_writable, hash_output, wait_for_configured_outputs, hash_bytes,
}
use edge_vision.App.FrameDumper.Waiting.{Got, wait_for_configured_outputs-Got}
use edge_vision.App.FrameDumper.Processing.{DumpInv, process_new_outputs_again}
use edge_vision.Witnesses.{frame, Ring, ring, two_frames, small, taking}

abbrev one_dump : ViewerDumpConfig
one_dump = record { enabled = true; max_frames = 1 }

abbrev output : RenderOutput
output = record {
  rgb = record { bytes = some (1 ∷ 2 ∷ 3 ∷ 4 ∷ 5 ∷ 6 ∷ []); byte_count = 6; owned = true };
  image_size = small;
  pose_generation = 1;
  scene_version_id = 1;
  render_timestamp = pos 7;
  cached = false;
}

abbrev store : RenderOutputStore
store = publish output (make_output_store 2)

abbrev dumper : ViewerFrameDumper
dumper = make_dumper one_dump "dumps"

dumper-DumpInv : DumpInv dumper
unfolding make_dumper
dumper-DumpInv = record { limit_fits = omega arith; dumped_le = omega arith }

abbrev dumped : Bool × ViewerFrameDumper × ℕ
dumped = process_new_outputs ⦃fs = taking⦄ store dumper 0

all_processed : dumped.0 ≡ true
unfolding process_new_outputs process_all process_output handle_output write_output is_writable
    make_dumper publish make_output_store trim recent has_rgb is_empty hash_output hash_bytes
all_processed = refl

process_new_outputs_again_example :
    process_new_outputs ⦃fs = taking⦄ store dumped.1 dumped.2 ≡ (true, dumped.1, dumped.2)
process_new_outputs_again_example =
    process_new_outputs_again ⦃fs = taking⦄ store dumper 0 dumper-DumpInv all_processed

abbrev waited : Bool × ViewerFrameDumper × ℕ
waited = wait_for_configured_outputs ⦃fs = taking⦄ (λ d n. n) (store ∷ []) dumper 0

wait_for_configured_outputs-Got_example : Got ⦃fs = taking⦄ (λ d n. n) (store ∷ []) dumper 0 waited
wait_for_configured_outputs-Got_example =
    wait_for_configured_outputs-Got ⦃fs = taking⦄ (λ d n. n) (store ∷ []) dumper 0 dumper-DumpInv

abbrev poll : Poll Ring
poll = record {
  frames = make_store ⦃rb = ring⦄ two_frames;
  versions = make_version_store 2;
  poses = empty_store;
}

abbrev version : SceneVersion
version = record {
  version_id = 1;
  timestamp = record { ticks = pos 5 };
  last_integrated_frame_id = 1;
  camera_to_world = record { matrix = [] };
  tracking_status = not_run;
  integration_status = integrated;
}

-- A version of the frame 1, which is stored.
abbrev fruitful : Poll Ring
fruitful = record poll {
  frames = record (make_store ⦃rb = ring⦄ two_frames) {
    history = add_frame (frame 1) empty_history;
  };
  versions = add version (make_version_store 2);
}

seed_once-Seeded_example :
    Seeded small
      (poll ∷ fruitful ∷ [])
      empty_store
      (seed_once small (poll ∷ fruitful ∷ []) empty_store)
seed_once-Seeded_example = seed_once-Seeded small (poll ∷ fruitful ∷ []) empty_store
