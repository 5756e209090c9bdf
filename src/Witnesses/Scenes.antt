-- ===== src/Witnesses/Scenes.antt =====
-- The scene's and the viewer's theorems on small runs.
use edge_vision.Prelude.{
  ℕ, ◌+◌, ◌<◌, ◌≤◌, ◌≡◌, ◌⊎◌, refl, arith, pos, List, [], ◌∷◌, none, some, true, false, get_last?,
  length, All, inc64,
}
use edge_vision.Config.{SceneConfig, balanced}
use edge_vision.Model.Scene.{SceneVersion, Pose4f, tracked, integrated}
use edge_vision.Model.Scene.Shared.Threads.{
  Event, reader_arrives, writer_arrives, writer_enters, releases, publishes, reader_may_enter,
  writer_may_enter, step, remove, run,
}
use edge_vision.Model.Scene.Shared.{arrive_write, make_state, can_acquire_write}
use edge_vision.Model.Scene.Shared.Exclusion.{fresh, readers, writers, run_excludes, never_stuck}
use edge_vision.Model.Scene.VersionStore.{make_version_store, get, latest}
use edge_vision.Model.Scene.VersionStore.Window.{add_all, find_version, last_of, added_window}
use edge_vision.Model.Viewer.{ViewerPose, RenderOutput}
use edge_vision.Model.Viewer.PoseStore.{
  ViewerPoseStore, FloatArith, empty_store, update, wait_for_newer, apply_relative_pose,
  multiply_row_major, entry,
}
use edge_vision.Model.Viewer.PoseStore.Generations.{PoseInv, update_is_newer}
use edge_vision.Model.Viewer.PoseStore.Relative.{
  multiply_entry, moved, IsRepeated, apply_relative_pose_moves,
}
use edge_vision.Model.Viewer.OutputStore.{make_output_store}
use edge_vision.Model.Viewer.OutputStore
use edge_vision.Model.Viewer.OutputStore.Log.{publish_all, published_window}
use edge_vision.Model.Viewer.OutputStore.Log
use edge_vision.Witnesses.{unit_intrinsics}

abbrev config : SceneConfig
config = record { read_policy = balanced }

abbrev visits : List Event
visits = writer_arrives ∷ writer_enters ∷ reader_arrives ∷ publishes 0 ∷ []

run_excludes_example :
    let y = run visits (fresh 1 config) in
    ((y.state.writer_active ≡ false) ⊎ (length y.leases ≡ 1))
    × (y.state.active_reader_count ≡ readers y.leases)
    × (writers y.leases ≤ 1)
    × All (λ l. (l.version ≡ y.state.scene_version_id) × (l.owner ≡ y.state.identity)) y.leases
run_excludes_example = run_excludes 1 config visits (omega arith)

abbrev waits : List Event
waits = writer_arrives ∷ writer_enters ∷ reader_arrives ∷ releases 0 ∷ []

no_lease : (run waits (fresh 1 config)).leases ≡ []
unfolding run fresh step writer_may_enter arrive_write make_state can_acquire_write remove
no_lease = refl

one_waits :
    0
    < (run waits (fresh 1 config)).waiting_readers
      + (run waits (fresh 1 config)).state.waiting_writer_count
unfolding run fresh step writer_may_enter arrive_write make_state can_acquire_write remove
one_waits = omega arith

never_stuck_example :
    (reader_may_enter (run waits (fresh 1 config)) ≡ true)
    ⊎ (writer_may_enter (run waits (fresh 1 config)) ≡ true)
never_stuck_example = never_stuck 1 config waits (omega arith) no_lease one_waits

abbrev version : ℕ → SceneVersion
version n = record {
  version_id = n;
  timestamp = record { ticks = pos n };
  last_integrated_frame_id = n;
  camera_to_world = record { matrix = [] };
  tracking_status = tracked;
  integration_status = integrated;
}

abbrev three_versions : List SceneVersion
three_versions = version 1 ∷ version 2 ∷ version 3 ∷ []

added_window_example :
    let s = add_all three_versions (make_version_store 2) in
    (get 2 s ≡ find_version 2 (last_of 2 three_versions)) × (latest s ≡ get_last? three_versions)
added_window_example = added_window 2 2 three_versions (omega arith)

abbrev no_output : ℕ → RenderOutput
no_output n = record {
  rgb = record { bytes = none; byte_count = 0; owned = false };
  image_size = record { width = pos 2; height = pos 1 };
  pose_generation = n;
  scene_version_id = n;
  render_timestamp = pos n;
  cached = false;
}

abbrev three_outputs : List RenderOutput
three_outputs = no_output 1 ∷ no_output 2 ∷ no_output 3 ∷ []

published_window_example :
    let s = publish_all three_outputs (make_output_store 2) in
    (OutputStore.recent 3 s ≡ Log.last_of 2 three_outputs)
    × (OutputStore.latest s ≡ get_last? three_outputs)
published_window_example = published_window 2 3 three_outputs

-- Entry 0 is 1.0f; every other is 0.0f.
abbrev corner : Pose4f
corner = record {
  matrix = 1065353216 ∷ 0 ∷ 0 ∷ 0 ∷ 0 ∷ 0 ∷ 0 ∷ 0 ∷ 0 ∷ 0 ∷ 0 ∷ 0 ∷ 0 ∷ 0 ∷ 0 ∷ 0 ∷ [];
}

abbrev pose : ViewerPose
pose = record {
  generation = 3;
  pose = corner;
  intrinsics = unit_intrinsics;
  image_size = record { width = pos 2; height = pos 1 };
}

update_is_newer_example :
    (1 ≤ (update pose empty_store).1.generation)
    × PoseInv (update pose empty_store).0
    × (wait_for_newer 0 (pos 5) empty_store (update pose empty_store).0
        ≡ some (update pose empty_store).1)
update_is_newer_example =
    update_is_newer pose empty_store 0 (pos 5) empty_store
      (record { latest_older = tt; baseline_older = tt }) (omega arith) (omega arith) (omega arith)

-- A stand-in for the machine's arithmetic, which the theorems do not look into.
abbrev first_operand : FloatArith
first_operand = record { add = λ x y. y; mul = λ x y. x }

multiply_entry_example :
    entry (multiply_row_major first_operand corner corner).matrix 6 ≡ entry corner.matrix 7
multiply_entry_example = multiply_entry first_operand corner corner 1 2 (omega arith) (omega arith)

abbrev with_baseline : ViewerPoseStore
with_baseline = record {
  latest_pose = some pose;
  relative_baseline_pose = some pose;
  next_generation = 4;
}

abbrev Moves : Type 0
Moves =
    (IsRepeated first_operand corner with_baseline pose
      × (apply_relative_pose first_operand corner with_baseline ≡ (with_baseline, none)))
    ⊎ (¬ IsRepeated first_operand corner with_baseline pose
        × ((q : ViewerPose) × (apply_relative_pose first_operand corner with_baseline ≡ (
          record with_baseline { next_generation = inc64 q.generation; latest_pose = some q },
          some q,
        ))
            × (4 ≤ q.generation)
            × (q ≡ record (moved first_operand corner with_baseline pose) {
              generation = q.generation;
            })))

apply_relative_pose_moves_example : Moves
apply_relative_pose_moves_example =
    apply_relative_pose_moves first_operand corner with_baseline pose refl
