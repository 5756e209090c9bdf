-- ===== src/Witnesses/Viewers.antt =====
-- The renderer's and the view's theorems on a two-pixel image.
use edge_vision.Prelude.{
  ℕ, ◌+◌, ◌*◌, ◌<◌, ◌≡◌, refl, inl, arith, pos, true, false, List, [], ◌∷◌, none, some, get_elem?,
  length, Float32,
}
use edge_vision.Config.{ImageSize, SceneConfig, greedy, event}
use edge_vision.Model.Frame.{is_accepted, is_empty}
use edge_vision.Model.Frame.Validator.{
  FrameValidationContext, validate, is_valid_timestamp, has_sane_image_bytes, is_valid_size,
  is_valid_intrinsics,
}
use edge_vision.Model.Scene.{Pixel}
use edge_vision.Model.Scene.Shared.{make_state}
use edge_vision.Model.Viewer.PoseStore.{empty_store, update}
use edge_vision.Model.Viewer.OutputStore.{make_output_store}
use edge_vision.Builder.Pipeline.{check_layout, is_converted}
use edge_vision.Builder.View.{
  swizzle_bgra_row_to_rgba, swizzle_bgra_row_to_rgba_scalar, copy_rgb, copy_depth,
}
use edge_vision.Builder.View.Swizzle.{rgba_at, rgba_row, swizzle_rows_agree}
use edge_vision.Builder.View.Depths.{depth_at}
use edge_vision.Builder.View.Safety.{Backed, accepted_frame_copied}
use edge_vision.Viewer.SceneViewer.{SceneViewer, render_pose}
use edge_vision.Viewer.SceneViewer.Outcomes.{Ends, render_pose-Ends}
use edge_vision.Viewer.Runner.{Loop, Surroundings, blank_status, rounds}
use edge_vision.Viewer.Runner.Rounds.{CountInv, Rising, rounds-CountInv, rounds-Rising}
use edge_vision.Witnesses.{black_engine, small, pose_of, frame}

abbrev greedy_scene : SceneConfig
greedy_scene = record { read_policy = greedy }

abbrev viewer : SceneViewer ImageSize
viewer = record {
  shared = make_state 1 greedy_scene;
  outputs = make_output_store 2;
  pipeline = record {
    state = small;
    render_image_size = small;
    has_layout = false;
    has_engine = false;
  };
}

no_readers : (make_state 1 greedy_scene).active_reader_count + 1 < 18446744073709551616
unfolding make_state
no_readers = omega arith

render_pose-Ends_example :
    Ends ℕ ⦃vis = black_engine⦄ 0
      (pose_of 1)
      viewer
      (render_pose ⦃vis = black_engine⦄ 0 (pos 5) (pose_of 1) viewer)
render_pose-Ends_example =
    render_pose-Ends ℕ ⦃vis = black_engine⦄ 0 (pos 5) (pose_of 1) viewer (inl refl) no_readers

abbrev visit : ℕ → Surroundings ℕ
visit n = record {
  poses = (update (pose_of n) empty_store).0;
  poses_later = (update (pose_of n) empty_store).0;
  shared = make_state 1 greedy_scene;
  scene = 0;
  now = pos n;
}

abbrev at_start : Loop ImageSize
at_start = record { viewer = viewer; status = blank_status; last_pose_generation = 0 }

abbrev two_visits : List (Surroundings ℕ)
two_visits = visit 1 ∷ visit 2 ∷ []

rounds-CountInv_example :
    CountInv
      (0 + length two_visits)
      (rounds ⦃vis = black_engine⦄ event (pos 33) two_visits at_start).0.status
rounds-CountInv_example =
    rounds-CountInv ⦃vis = black_engine⦄ 0 event (pos 33) two_visits at_start (omega arith)
      (record {
        total = refl;
        cached_le = omega arith;
        published_le = omega arith;
        attempts_le = omega arith;
      })

rounds-Rising_example : Rising 0 (rounds ⦃vis = black_engine⦄ event (pos 33) two_visits at_start).1
rounds-Rising_example = rounds-Rising ⦃vis = black_engine⦄ (pos 33) two_visits at_start

abbrev two_columns : List ℕ
two_columns = 1 ∷ 2 ∷ 3 ∷ 4 ∷ 5 ∷ 6 ∷ 7 ∷ 8 ∷ []

swizzle_rows_agree_example :
    (swizzle_bgra_row_to_rgba two_columns 2 ≡ some (rgba_row two_columns 0 2))
    × (swizzle_bgra_row_to_rgba_scalar two_columns 2 ≡ swizzle_bgra_row_to_rgba two_columns 2)
swizzle_rows_agree_example = swizzle_rows_agree two_columns 2 (omega arith)

abbrev no_history : FrameValidationContext
no_history = record {
  latest_frame_id = none;
  latest_timestamp = none;
  is_history_full = false;
  has_evictable_frame = false;
}

abbrev backed_rgb : Backed (frame 3).rgb
backed_rgb = record { bytes = two_columns; has_bytes = refl; has_count = omega arith }

abbrev backed_depth : Backed (frame 3).depth
backed_depth = record { bytes = two_columns; has_bytes = refl; has_count = omega arith }

accepted_example : is_accepted (validate (frame 3) no_history) ≡ true
unfolding validate is_empty is_valid_timestamp has_sane_image_bytes is_valid_size
    is_valid_intrinsics
accepted_example = refl

converted_example : is_converted (check_layout (frame 3)) ≡ true
unfolding check_layout is_converted
converted_example = refl

accepted_frame_copied_example :
    (ps : List Pixel) × (ds : List Float32) × (copy_rgb (frame 3).rgb ≡ some ps)
    × (copy_depth (λ d. d) (frame 3).depth ≡ some ds)
    × (get_elem? ps (0 * 2 + 1) ≡ some (rgba_at two_columns (0 * 8 + 1 * 4)))
    × (get_elem? ds (0 * 2 + 1) ≡ some (depth_at (λ d. d) two_columns (0 * 4 + 1 * 2)))
accepted_frame_copied_example =
    accepted_frame_copied (λ d. d) (frame 3) no_history backed_rgb backed_depth (omega arith)
      (omega arith) accepted_example converted_example 0 1 (omega arith) (omega arith)
