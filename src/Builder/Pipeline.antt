-- ===== src/Builder/Pipeline.antt =====
-- src/builder/src/state/InfiniTamPipeline.cpp, and the checks of utils/InfiniTamViewConverter.cpp.
use edge_vision.Prelude.{
  Bool, true, false, not, ◌&&◌, ◌||◌, List, Float32, Option, none, some, leb_ℤ, eq_float,
  if◌then◌else◌,
}
use edge_vision.Config.{ImageSize, size_eq}
use edge_vision.Model.Frame.{Frame, CameraIntrinsics}
use edge_vision.Model.Scene.{
  TrackingStatus, IntegrationStatus, tracked, lost, integrated, Pixel, Pose4f,
}
use edge_vision.Capture.Frame.Validator.{times}
use edge_vision.Builder.{InfiniTam}
use edge_vision.Builder.View.{copy_rgb, copy_depth}

pub data ViewConversionFailure : Type 0 where
  no_conversion_failure mismatched_image_sizes invalid_rgb_layout invalid_depth_layout :
      ViewConversionFailure

unfoldable pub is_converted : ViewConversionFailure → Bool
is_converted no_conversion_failure = true
is_converted _ = false

-- The tests before the copy in copyFrameToView: 4 bytes a pixel for colour, 2 for depth.
unfoldable pub check_layout : Frame → ViewConversionFailure
unfolding size_eq
check_layout frame =
    if not (size_eq frame.rgb.size frame.depth.size)
    then mismatched_image_sizes
    else if not (leb_ℤ (times frame.rgb.size.width 4) frame.rgb.stride_bytes)
    then invalid_rgb_layout
    else if not (leb_ℤ (times frame.depth.size.width 2) frame.depth.stride_bytes)
    then invalid_depth_layout
    else no_conversion_failure

unfoldable pub same_intrinsics : CameraIntrinsics → CameraIntrinsics → Bool
unfolding eq_float
same_intrinsics a b =
    eq_float a.fx b.fx && (eq_float a.fy b.fy && (eq_float a.cx b.cx && eq_float a.cy b.cy))

-- What a view or a pipeline was made for; it is none before the first is made.
pub record ViewLayout : Type 0 where
  pub rgb_size : ImageSize
  pub depth_size : ImageSize
  pub intrinsics : CameraIntrinsics

pub record PipelineSizes : Type 0 where
  pub rgb_size : ImageSize
  pub depth_size : ImageSize

pub record Pipeline (P : Type 0) : Type 0 where
  pub state : P
  pub view_layout : Option ViewLayout
  pub sizes : Option PipelineSizes
  pub is_tracking_initialised : Bool

unfoldable pub needs_view_reset : {P : Type 0} → Frame → Pipeline P → Bool
unfolding size_eq same_intrinsics
needs_view_reset frame p = elim (p.view_layout) [
  | none ↦ true
  | some layout ↦
      not (size_eq frame.rgb.size layout.rgb_size)
      || (not (size_eq frame.depth.size layout.depth_size)
          || not (same_intrinsics frame.intrinsics layout.intrinsics))
]

unfoldable pub needs_pipeline_reset : {P : Type 0} → Frame → Pipeline P → Bool
unfolding size_eq
needs_pipeline_reset frame p = elim (p.sizes) [
  | none ↦ true
  | some sizes ↦
      not (size_eq frame.rgb.size sizes.rgb_size) || not (size_eq frame.depth.size sizes.depth_size)
]

module _ {P : Type 0} ⦃tam : InfiniTam P⦄ where
  unfoldable pub reset_view : Frame → Pipeline P → Pipeline P
  reset_view frame p = record p {
    state = tam.make_view frame p.state;
    view_layout = some (record {
      rgb_size = frame.rgb.size;
      depth_size = frame.depth.size;
      intrinsics = frame.intrinsics;
    });
  }

  -- The images of the view, filled; an undefined read fills nothing here.
  abbrev filled : Option (List Pixel) → Option (List Float32) → P → P
  filled (some colours) (some depths) state = tam.fill_view colours depths state
  filled _ _ state = state

  -- copyFrameToView.
  unfoldable pub copy_frame_to_view : Frame → Pipeline P → Pipeline P × ViewConversionFailure
  unfolding check_layout is_converted
  copy_frame_to_view frame p =
      if is_converted (check_layout frame)
      then (
        record p {
          state = filled (copy_rgb frame.rgb) (copy_depth tam.metres frame.depth) p.state;
        },
        no_conversion_failure,
      )
      else (p, check_layout frame)

  unfoldable pub prepare_view : Frame → Pipeline P → Pipeline P × ViewConversionFailure
  unfolding needs_view_reset reset_view copy_frame_to_view
  prepare_view frame p =
      copy_frame_to_view frame (if needs_view_reset frame p then reset_view frame p else p)

  -- The scene is reset with the first pipeline only.
  unfoldable pub reset_pipeline : Frame → Pipeline P → Pipeline P
  reset_pipeline frame p = record p {
    state = tam.make_engines (elim (p.sizes) [ none ↦ true | some _ ↦ false ]) frame p.state;
    sizes = some (record { rgb_size = frame.rgb.size; depth_size = frame.depth.size });
    is_tracking_initialised = false;
  }

  unfoldable pub ensure_pipeline_for_scene : Frame → Pipeline P → Pipeline P
  unfolding needs_pipeline_reset reset_pipeline
  ensure_pipeline_for_scene frame p =
      if needs_pipeline_reset frame p then reset_pipeline frame p else p

  unfoldable pub track : Pipeline P → Pipeline P × TrackingStatus
  track p =
      (record p { state = (tam.track p.state).1 }, if (tam.track p.state).0 then tracked else lost)

  unfoldable pub integrate : Pipeline P → Pipeline P × IntegrationStatus
  integrate p =
      (record p { state = tam.process_frame p.state; is_tracking_initialised = true }, integrated)

  unfoldable pub prepare_for_next_tracking : Pipeline P → Pipeline P
  prepare_for_next_tracking p = record p { state = tam.prepare p.state }

  unfoldable pub camera_to_world : Pipeline P → Pose4f
  camera_to_world p = tam.current_pose p.state
