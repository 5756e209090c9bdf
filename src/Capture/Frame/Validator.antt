-- ===== src/Capture/Frame/Validator.antt =====
-- src/capture/src/frame/utils/K4aFrameValidator.cpp and K4aDepthAlignmentValidator.cpp. `passed` is a
-- check that returns std::nullopt, with the handle it was given, which is then not null.
use edge_vision.Prelude.{
  ◌&&◌, is_finite, gt_zero, ge_zero, ℕ, ◌-◌, ◌*◌, ◌%◌, ℤ, pos, negsuc, Bool, true, false, not, ◌||◌,
  Option, none, some, leb, leb_ℤ, ltb_ℤ, to_u64, u64_mod, ◌==◌, if◌then◌else◌, ◌+◌,
}
use edge_vision.Config.{ImageSize}
use edge_vision.Model.Frame.{FrameTimestamp, CameraIntrinsics}
use edge_vision.Capture.{K4aImage, ImageFormat, color_bgra32, depth16}
use edge_vision.Capture.Frame.{
  FrameBuildResult, make_frame_build_failure, invalid_frame_id, invalid_timestamp,
  missing_color_image, missing_depth_image, unsupported_color_format, unsupported_depth_format,
  invalid_color_image, invalid_depth_image, transformation_create_failed,
  transformed_depth_image_create_failed, depth_alignment_failed, invalid_intrinsics,
}

pub data Checked (A : Type 0) : Type 0 where
  failing : FrameBuildResult → Checked A
  passed : A → Checked A

-- The product of an int and a positive bytes per pixel.
abbrev pub times : ℤ → ℕ → ℤ
times (pos n) k = pos (n * k)
times (negsuc n) k = if k == 0 then pos 0 else negsuc (n * k + (k - 1))

abbrev pub image_size : K4aImage → ImageSize
image_size image = record { width = image.width_pixels; height = image.height_pixels }

-- kMaxSaneImageDimension, and the tests that this file has for itself.
abbrev max_sane_image_dimension : ℤ
max_sane_image_dimension = pos 16384

unfoldable pub is_valid_size : ImageSize → Bool
is_valid_size size =
    ltb_ℤ (pos 0) size.width
    && (ltb_ℤ (pos 0) size.height
        && (leb_ℤ size.width max_sane_image_dimension
            && leb_ℤ size.height max_sane_image_dimension))

unfoldable pub is_valid_timestamp : FrameTimestamp → Bool
is_valid_timestamp timestamp = ltb_ℤ (pos 0) timestamp.ticks

unfoldable pub is_valid_intrinsics : CameraIntrinsics → Bool
is_valid_intrinsics k =
    is_finite k.fx
    && (is_finite k.fy
        && (is_finite k.cx
            && (is_finite k.cy
                && (gt_zero k.fx && (gt_zero k.fy && (ge_zero k.cx && ge_zero k.cy))))))

-- isSaneImageShape.
unfoldable pub is_sane_image_shape : K4aImage → ℕ → Bool
unfolding is_valid_size
is_sane_image_shape image bytes_per_pixel =
    if not (is_valid_size (image_size image))
      || (leb_ℤ image.stride_bytes (pos 0) || (image.size == 0 || not image.has_buffer))
    then false
    else if ltb_ℤ image.stride_bytes (times image.width_pixels bytes_per_pixel)
    then false
    else leb (to_u64 image.stride_bytes * to_u64 image.height_pixels % u64_mod) image.size

unfoldable pub validate_request : Option ℕ → ℕ → FrameTimestamp → Checked ℕ
validate_request capture id timestamp =
    if id == 0
    then failing (make_frame_build_failure invalid_frame_id id "Frame id must be non-zero")
    else if not (is_valid_timestamp timestamp)
    then failing (make_frame_build_failure invalid_timestamp id "Frame timestamp must be positive")
    else elim capture [
      | none ↦
          failing (make_frame_build_failure missing_color_image id "K4A capture handle is missing")
      | some handle ↦ passed handle
    ]

abbrev is_color_bgra32 : ImageFormat → Bool
is_color_bgra32 color_bgra32 = true
is_color_bgra32 _ = false

abbrev is_depth16 : ImageFormat → Bool
is_depth16 depth16 = true
is_depth16 _ = false

unfoldable pub validate_color_image : Option K4aImage → ℕ → Checked K4aImage
validate_color_image none id =
    failing (make_frame_build_failure missing_color_image id "K4A capture has no color image")
validate_color_image (some image) id =
    if not (is_color_bgra32 image.format)
    then failing (
        make_frame_build_failure unsupported_color_format id "K4A color image format is not BGRA32")
    else if not (is_sane_image_shape image 4)
    then failing (
        make_frame_build_failure invalid_color_image id
          "K4A color image dimensions, stride, or byte count are invalid")
    else passed image

unfoldable pub validate_depth_image : Option K4aImage → ℕ → Checked K4aImage
validate_depth_image none id =
    failing (make_frame_build_failure missing_depth_image id "K4A capture has no depth image")
validate_depth_image (some image) id =
    if not (is_depth16 image.format)
    then failing (
        make_frame_build_failure unsupported_depth_format id
          "K4A depth image format is not DEPTH16")
    else if not (is_sane_image_shape image 2)
    then failing (
        make_frame_build_failure invalid_depth_image id
          "K4A depth image dimensions, stride, or byte count are invalid")
    else passed image

unfoldable pub validate_intrinsics : CameraIntrinsics → ℕ → Checked CameraIntrinsics
validate_intrinsics intrinsics id =
    if not (is_valid_intrinsics intrinsics)
    then failing
        (make_frame_build_failure invalid_intrinsics id "K4A color camera intrinsics are invalid")
    else passed intrinsics

unfoldable pub validate_transformation_create : Option ℕ → ℕ → Checked ℕ
validate_transformation_create (some transformation) id = passed transformation
validate_transformation_create none id = failing (
    make_frame_build_failure transformation_create_failed id
      "K4A depth-to-color transformation could not be created")

-- The result of the call and the handle that it wrote are one Option here.
unfoldable pub validate_transformed_depth_image_create : Option K4aImage → ℕ → Checked K4aImage
validate_transformed_depth_image_create (some image) id = passed image
validate_transformed_depth_image_create none id = failing (
    make_frame_build_failure transformed_depth_image_create_failed id
      "K4A transformed depth image could not be created")

unfoldable pub validate_depth_alignment : Bool → ℕ → Checked Bool
validate_depth_alignment true id = passed true
validate_depth_alignment false id = failing (
    make_frame_build_failure depth_alignment_failed id
      "K4A depth image could not be transformed into color camera geometry")
