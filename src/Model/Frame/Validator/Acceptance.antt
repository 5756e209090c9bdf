-- ===== src/Model/Frame/Validator/Acceptance.antt =====
-- What an accepted frame satisfies (FrameValidator.cpp).
use edge_vision.Prelude.{
  ℕ, ◌*◌, ◌≤◌, ◌<◌, ◌≡◌, ◌≢◌, ℤ, pos, negsuc, true, false, not, ◌&&◌, u64_mod, arith,
}
use native.Mathlib.Nat.{mul-le-mul_left}
use edge_vision.Model.Frame.{Frame, FrameImage, is_accepted, is_empty, accepted}
use edge_vision.Model.Frame.Validator.{
  FrameValidationContext, validate, is_valid_size, is_valid_timestamp, has_sane_image_bytes,
  is_valid_intrinsics, not_newer_id, not_newer_timestamp,
}

-- The conditions that `validate` checks, as one record.
pub record IsAcceptable (frame : Frame) (context : FrameValidationContext) : Type 0 where
  pub has_id : frame.frame_id ≢ 0
  pub has_timestamp : is_valid_timestamp frame.timestamp ≡ true
  pub newer_id : not_newer_id context.latest_frame_id frame.frame_id ≡ false
  pub newer_timestamp : not_newer_timestamp context.latest_timestamp frame.timestamp ≡ false
  pub rgb_present : is_empty frame.rgb.buffer ≡ false
  pub depth_present : is_empty frame.depth.buffer ≡ false
  pub rgb_sane : has_sane_image_bytes frame.rgb ≡ true
  pub depth_sane : has_sane_image_bytes frame.depth ≡ true
  pub intrinsics_valid : is_valid_intrinsics frame.intrinsics ≡ true
  pub room : (context.is_history_full && not context.has_evictable_frame) ≡ false

pub accepted-IsAcceptable :
    (frame : Frame) (context : FrameValidationContext)
    → is_accepted (validate frame context) ≡ true
    → IsAcceptable frame context
unfolding validate
accepted-IsAcceptable frame context h = ground arith

pub IsAcceptable-accepted :
    (frame : Frame) (context : FrameValidationContext)
    → IsAcceptable frame context
    → (validate frame context).code ≡ accepted
unfolding validate
IsAcceptable-accepted frame context h = ground arith

abbrev pub FitsInt32 : ℤ → Type 0
FitsInt32 (pos n) = n < 2147483648
FitsInt32 (negsuc n) = n < 2147483648

-- The number that a positive int holds.
abbrev pub magnitude : ℤ → ℕ
magnitude (pos n) = n
magnitude (negsuc n) = 0

pub record ImageBounds (image : FrameImage) : Type 0 where
  pub width_range : (1 ≤ magnitude image.size.width) × (magnitude image.size.width ≤ 16384)
  pub height_range : (1 ≤ magnitude image.size.height) × (magnitude image.size.height ≤ 16384)
  pub stride_range : magnitude image.size.width ≤ magnitude image.stride_bytes
  pub fits : magnitude image.stride_bytes * magnitude image.size.height ≤ image.buffer.byte_count

product_small : (s h : ℕ) → s < 2147483648 → h ≤ 16384 → s * h < u64_mod
product_small s h a b = omega (arith, mul-le-mul_left s b)

-- The bounds of an image that was checked: the memory that its rows take is within the buffer, as
-- numbers that do not wrap around.
pub has_sane_image_bytes-ImageBounds :
    (image : FrameImage)
    → FitsInt32 image.stride_bytes
    → has_sane_image_bytes image ≡ true
    → ImageBounds image
unfolding has_sane_image_bytes is_valid_size is_empty
has_sane_image_bytes-ImageBounds image f h =
    ground (arith, product_small (magnitude image.stride_bytes) (magnitude image.size.height))
