-- ===== src/Capture/Frame/Builder.antt =====
-- src/capture/src/frame/K4aFrameBuilder.cpp, with utils/K4aDepthAligner.cpp, K4aFrameAssembler.cpp and
-- the handles of frame/resources.
pub mod Handles
pub mod Soundness
use edge_vision.Prelude.{ℕ, ℤ, Bool, true, false, Option, none, some, if◌then◌else◌}
use edge_vision.Model.Frame.{Frame, FrameImage, FrameBuffer, FrameTimestamp, CameraIntrinsics}
use edge_vision.Capture.{
  K4aInterface, K4aImage, Calibration, Machine, log, unlogged, logged, depth16, acquired_image,
  acquired_transformation, released_image, released_capture, released_transformation,
}
use edge_vision.Capture.Frame.{FrameBuildResult, make_frame_build_success}
use edge_vision.Capture.Frame.Validator.{
  Checked, failing, passed, validate_request, validate_color_image, validate_depth_image,
  validate_intrinsics, image_size, times, validate_transformation_create,
  validate_transformed_depth_image_create, validate_depth_alignment,
}

-- DepthAlignmentResult, as its two makers build it.
pub data DepthAlignmentResult : Type 0 where
  aligned : K4aImage → DepthAlignmentResult
  not_aligned : FrameBuildResult → DepthAlignmentResult

unfoldable pub make_intrinsics : Calibration → CameraIntrinsics
make_intrinsics calibration = calibration.color_intrinsics

module _ {W : Type 0} ⦃api : K4aInterface W⦄ where
  abbrev acquired_an_image : Machine W → Option K4aImage × W → Option K4aImage × Machine W
  acquired_an_image m (none, w) = unlogged m.calls (none, w)
  acquired_an_image m (some image, w) = logged (acquired_image image.handle) m.calls (some image, w)

  unfoldable pub get_color_image : ℕ → Machine W → Option K4aImage × Machine W
  unfolding logged unlogged
  get_color_image capture m = acquired_an_image m (api.capture_get_color_image capture m.world)

  unfoldable pub get_depth_image : ℕ → Machine W → Option K4aImage × Machine W
  unfolding logged unlogged
  get_depth_image capture m = acquired_an_image m (api.capture_get_depth_image capture m.world)

  -- The image that the aligned depth is written to: as large as the colour image, 2 bytes a pixel.
  unfoldable pub create_depth_image : K4aImage → Machine W → Option K4aImage × Machine W
  unfolding logged unlogged
  create_depth_image color m = acquired_an_image m (
      api.image_create depth16 color.width_pixels color.height_pixels (times color.width_pixels 2)
        m.world)

  abbrev acquired_a_transformation : Machine W → Option ℕ × W → Option ℕ × Machine W
  acquired_a_transformation m (none, w) = unlogged m.calls (none, w)
  acquired_a_transformation m (some h, w) = logged (acquired_transformation h) m.calls (some h, w)

  unfoldable pub create_transformation : Calibration → Machine W → Option ℕ × Machine W
  unfolding logged unlogged
  create_transformation calibration m =
      acquired_a_transformation m (api.transformation_create calibration m.world)

  -- The destructors of ImageHandle, TransformationHandle and CaptureHandle, at the end of the scope.
  unfoldable pub end_image : {R : Type 0} → Option K4aImage → R × Machine W → R × Machine W
  unfolding log
  end_image none (r, m) = (r, m)
  end_image (some image) (r, m) =
      (r, log (released_image image.handle) m.calls (api.image_release image.handle m.world))

  unfoldable pub end_transformation : {R : Type 0} → Option ℕ → R × Machine W → R × Machine W
  unfolding log
  end_transformation none (r, m) = (r, m)
  end_transformation (some h) (r, m) =
      (r, log (released_transformation h) m.calls (api.transformation_destroy h m.world))

  unfoldable pub end_capture : {R : Type 0} → ℕ → R × Machine W → R × Machine W
  unfolding log
  end_capture h (r, m) = (r, log (released_capture h) m.calls (api.capture_release h m.world))

  -- copyImageBuffer: the bytes are copied into storage that the buffer owns.
  unfoldable pub copy_image_buffer : K4aImage → W → FrameBuffer
  copy_image_buffer image w = record {
    bytes = some (api.image_bytes image w);
    byte_count = image.size;
    owned = true;
  }

  unfoldable pub make_frame_image : K4aImage → W → FrameImage
  unfolding copy_image_buffer
  make_frame_image image w = record {
    size = image_size image;
    stride_bytes = image.stride_bytes;
    buffer = copy_image_buffer image w;
  }

  unfoldable pub assemble : K4aImage → K4aImage → CameraIntrinsics → ℕ → FrameTimestamp → W → Frame
  unfolding make_frame_image
  assemble color depth intrinsics id timestamp w = record {
    frame_id = id;
    timestamp = timestamp;
    rgb = make_frame_image color w;
    depth = make_frame_image depth w;
    intrinsics = intrinsics;
  }

  -- A failed call leaves the image to its handle, which gives it back; a good one moves it out.
  unfoldable pub transform_depth :
      ℕ → ℕ → K4aImage → K4aImage → Machine W → DepthAlignmentResult × Machine W
  unfolding unlogged
  transform_depth id transformation depth target m =
      let r =
        unlogged m.calls
          (api.transformation_depth_image_to_color_camera transformation depth target m.world) in
      elim (validate_depth_alignment r.0 id) [
        | failing failure ↦ end_image (some target) (not_aligned failure, r.1)
        | passed result ↦ (aligned target, r.1)
      ]

  unfoldable pub align_with :
      ℕ → K4aImage → K4aImage → ℕ → Machine W → DepthAlignmentResult × Machine W
  align_with transformation color depth id m =
      let r = create_depth_image color m in
      elim (validate_transformed_depth_image_create r.0 id) [
        | failing failure ↦ (not_aligned failure, r.1)
        | passed target ↦ transform_depth id transformation depth target r.1
      ]

  unfoldable pub align_depth_to_color :
      Calibration → K4aImage → K4aImage → ℕ → Machine W → DepthAlignmentResult × Machine W
  align_depth_to_color calibration color depth id m =
      let t = create_transformation calibration m in
      end_transformation t.0 (elim (validate_transformation_create t.0 id) [
        | failing failure ↦ (not_aligned failure, t.1)
        | passed transformation ↦ align_with transformation color depth id t.1
      ])

  -- The end of `build`, once the depth is aligned.
  unfoldable pub build_aligned :
      K4aImage → K4aImage → Calibration → ℕ → FrameTimestamp → W → FrameBuildResult
  build_aligned color depth calibration id timestamp w =
      elim (validate_depth_image (some depth) id) [
        | failing failure ↦ failure
        | passed checked_depth ↦ elim (validate_intrinsics (make_intrinsics calibration) id) [
          | failing failure ↦ failure
          | passed intrinsics ↦
              make_frame_build_success (assemble color checked_depth intrinsics id timestamp w)
        ]
      ]

  abbrev build_with :
      K4aImage
      → Calibration
      → ℕ
      → FrameTimestamp
      → DepthAlignmentResult × Machine W
      → FrameBuildResult × Machine W
  build_with color calibration id timestamp (not_aligned failure, m) = (failure, m)
  build_with color calibration id timestamp (aligned depth, m) =
      end_image (some depth) (build_aligned color depth calibration id timestamp m.world, m)

  -- `build` from the depth image on.
  unfoldable pub build_depth :
      ℕ → K4aImage → Calibration → ℕ → FrameTimestamp → Machine W → FrameBuildResult × Machine W
  build_depth capture color calibration id timestamp m =
      let d = get_depth_image capture m in
      end_image d.0 (elim (validate_depth_image d.0 id) [
        | failing failure ↦ (failure, d.1)
        | passed depth ↦
            build_with color calibration id timestamp
              (align_depth_to_color calibration color depth id d.1)
      ])

  unfoldable pub build_color :
      ℕ → Calibration → ℕ → FrameTimestamp → Machine W → FrameBuildResult × Machine W
  build_color capture calibration id timestamp m =
      let c = get_color_image capture m in
      end_image c.0 (elim (validate_color_image c.0 id) [
        | failing failure ↦ (failure, c.1)
        | passed color ↦ build_depth capture color calibration id timestamp c.1
      ])

  -- K4aFrameBuilder::build.
  unfoldable pub build :
      Option ℕ → Calibration → ℕ → FrameTimestamp → Machine W → FrameBuildResult × Machine W
  build capture calibration id timestamp m = elim (validate_request capture id timestamp) [
    | failing failure ↦ (failure, m)
    | passed handle ↦ build_color handle calibration id timestamp m
  ]
