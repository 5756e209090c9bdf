-- ===== src/Model/Frame/Validator.antt =====
-- src/model/src/frame/utils/FrameValidator.cpp and frame_validation_context.hpp.
pub mod Acceptance
use edge_vision.Prelude.{
  ℕ, ◌*◌, ◌%◌, pos, Bool, false, not, ◌&&◌, ◌||◌, Option, none, some, leb, ltb_ℤ, leb_ℤ, to_u64,
  u64_mod, is_finite, gt_zero, ge_zero, ◌==◌, if◌then◌else◌,
}
use edge_vision.Config.{ImageSize}
use edge_vision.Model.Frame.{
  Frame, FrameImage, FrameTimestamp, CameraIntrinsics, FrameSubmissionResult, make_result, is_empty,
  accepted, invalid_frame_id, invalid_timestamp, frame_id_not_newer, timestamp_not_newer,
  missing_rgb_buffer, missing_depth_buffer, invalid_rgb_dimensions, invalid_depth_dimensions,
  invalid_intrinsics, history_full,
}

pub record FrameValidationContext : Type 0 where
  pub latest_frame_id : Option ℕ
  pub latest_timestamp : Option FrameTimestamp
  pub is_history_full : Bool
  pub has_evictable_frame : Bool

-- kMaxSaneImageDimension
abbrev pub max_sane_image_dimension : ℕ
max_sane_image_dimension = 16384

unfoldable pub is_valid_size : ImageSize → Bool
is_valid_size size =
    ltb_ℤ (pos 0) size.width
    && (ltb_ℤ (pos 0) size.height
        && (leb_ℤ size.width (pos max_sane_image_dimension)
            && leb_ℤ size.height (pos max_sane_image_dimension)))

unfoldable pub is_valid_timestamp : FrameTimestamp → Bool
is_valid_timestamp timestamp = ltb_ℤ (pos 0) timestamp.ticks

unfoldable pub has_sane_image_bytes : FrameImage → Bool
unfolding is_valid_size is_empty
has_sane_image_bytes image =
    if not (is_valid_size image.size) || (leb_ℤ image.stride_bytes (pos 0) || is_empty image.buffer)
    then false
    else if ltb_ℤ image.stride_bytes image.size.width
    then false
    else leb (to_u64 image.stride_bytes * to_u64 image.size.height % u64_mod)
        image.buffer.byte_count

unfoldable pub is_valid_intrinsics : CameraIntrinsics → Bool
is_valid_intrinsics k =
    is_finite k.fx
    && (is_finite k.fy
        && (is_finite k.cx
            && (is_finite k.cy
                && (gt_zero k.fx && (gt_zero k.fy && (ge_zero k.cx && ge_zero k.cy))))))

-- latest.has_value() && frameId <= *latest
abbrev pub not_newer_id : Option ℕ → ℕ → Bool
not_newer_id none id = false
not_newer_id (some latest) id = leb id latest

-- latest.has_value() && ticks <= latest->ticks
abbrev pub not_newer_timestamp : Option FrameTimestamp → FrameTimestamp → Bool
not_newer_timestamp none timestamp = false
not_newer_timestamp (some latest) timestamp = leb_ℤ timestamp.ticks latest.ticks

-- FrameValidator::validate.
unfoldable pub validate : Frame → FrameValidationContext → FrameSubmissionResult
validate frame context =
    if id == 0
    then make_result invalid_frame_id id "Frame id must be non-zero"
    else if not (is_valid_timestamp frame.timestamp)
    then make_result invalid_timestamp id "Frame timestamp must be positive"
    else if not_newer_id context.latest_frame_id id
    then make_result frame_id_not_newer id "Frame id is not newer than the latest accepted frame"
    else if not_newer_timestamp context.latest_timestamp frame.timestamp
    then make_result timestamp_not_newer id
        "Frame timestamp is not newer than the latest accepted frame"
    else if is_empty frame.rgb.buffer
    then make_result missing_rgb_buffer id "Frame RGB buffer is missing"
    else if is_empty frame.depth.buffer
    then make_result missing_depth_buffer id "Frame depth buffer is missing"
    else if not (has_sane_image_bytes frame.rgb)
    then make_result invalid_rgb_dimensions id
        "Frame RGB dimensions, stride, or byte count are invalid"
    else if not (has_sane_image_bytes frame.depth)
    then make_result invalid_depth_dimensions id
        "Frame depth dimensions, stride, or byte count are invalid"
    else if not (is_valid_intrinsics frame.intrinsics)
    then make_result invalid_intrinsics id "Frame camera intrinsics are invalid"
    else if context.is_history_full && not context.has_evictable_frame
    then make_result history_full id "Frame history is full and no stored frame can be evicted"
    else make_result accepted id "Frame accepted"
  where
    open frame use {frame_id as id}
