-- ===== src/Builder/View/Safety.antt =====
-- A frame that the frame store accepted, in copyFrameToView of InfiniTamViewConverter.cpp.
use edge_vision.Prelude.{
  ℕ, ◌+◌, ◌*◌, ◌<◌, ◌≤◌, ◌≡◌, refl, ap, ◌∙◌, arith, List, some, length, get_elem?, ℤ, pos, negsuc,
  leb_ℤ, true, Float32,
}
use edge_vision.Config.{size_eq, same_size}
use edge_vision.Model.Frame.{Frame, FrameImage, is_accepted}
use edge_vision.Model.Frame.Validator.{FrameValidationContext, validate}
use edge_vision.Model.Frame.Validator.Acceptance.{
  FitsInt32, ImageBounds, magnitude, accepted-IsAcceptable, has_sane_image_bytes-ImageBounds,
}
use edge_vision.Model.Scene.{Pixel}
use edge_vision.Builder.View.{copy_rgb, copy_depth}
use edge_vision.Builder.View.Swizzle.{rgba_at}
use edge_vision.Builder.View.Copies.{Readable, copy_rgb_reads}
use edge_vision.Capture.Frame.Validator.{times}
use edge_vision.Builder.Pipeline.{check_layout, is_converted}
use edge_vision.Builder.View.Depths.{depth_at, copy_depth_reads}

-- The buffer points to as many bytes as it says.
pub record Backed (image : FrameImage) : Type 0 where
  pub bytes : List ℕ
  pub has_bytes : image.buffer.bytes ≡ some bytes
  pub has_count : image.buffer.byte_count ≤ length bytes

positive : (z : ℤ) → 1 ≤ magnitude z → z ≡ pos (magnitude z)
positive (pos n) h = refl
positive (negsuc n) h = elim h [ ]

layout_fits :
    (unit : ℕ) (width stride : ℤ)
    → 1 ≤ magnitude width
    → leb_ℤ (times width unit) stride ≡ true
    → magnitude width * unit ≤ magnitude stride
layout_fits unit (pos w) (pos s) h e = ground (arith, e)
layout_fits unit (pos w) (negsuc s) h e = ground (arith, e)
layout_fits unit (negsuc w) stride h e = elim h [ ]

unfoldable readable_of :
    (unit : ℕ) (image : FrameImage)
    → Backed image
    → ImageBounds image
    → leb_ℤ (times image.size.width unit) image.stride_bytes ≡ true
    → Readable image unit
readable_of unit image backed bounds layout = record {
  bytes = backed.bytes;
  width = magnitude image.size.width;
  height = magnitude image.size.height;
  stride = magnitude image.stride_bytes;
  has_bytes = backed.has_bytes;
  has_size =
      ap (λ w. record { width = w; height = image.size.height })
        (positive image.size.width bounds.width_range.0)
      ∙ ap (λ h. record { width = pos (magnitude image.size.width); height = h })
          (positive image.size.height bounds.height_range.0);
  has_stride =
      positive image.stride_bytes (omega (arith, bounds.width_range.0, bounds.stride_range));
  row_fits = layout_fits unit image.size.width image.stride_bytes bounds.width_range.0 layout;
  rows_fit = omega (arith, bounds.fits, backed.has_count);
}

-- What check_layout tells of a frame.
layout_checked :
    (frame : Frame)
    → is_converted (check_layout frame) ≡ true
    → (size_eq frame.rgb.size frame.depth.size ≡ true)
      × (leb_ℤ (times frame.rgb.size.width 4) frame.rgb.stride_bytes ≡ true)
      × (leb_ℤ (times frame.depth.size.width 2) frame.depth.stride_bytes ≡ true)
unfolding check_layout is_converted
layout_checked frame e = ground (arith, e)

-- A frame that the frame store's validator accepts and that passes the converter's own tests, with buffers that
-- have the bytes they say, is copied without a read outside the buffers: at every row and column
-- the view's colour is that of the four bytes there, red and blue exchanged, and its depth is
-- that of the two bytes there.
pub accepted_frame_copied :
    (metres : ℕ → Float32) (frame : Frame) (context : FrameValidationContext)
    → (rgb : Backed frame.rgb) → (depth : Backed frame.depth) → FitsInt32 frame.rgb.stride_bytes
    → FitsInt32 frame.depth.stride_bytes
    → is_accepted (validate frame context) ≡ true
    → is_converted (check_layout frame) ≡ true
    → (r c : ℕ) → r < magnitude frame.rgb.size.height
    → c < magnitude frame.rgb.size.width
    → let w = magnitude frame.rgb.size.width in
      (ps : List Pixel) × (ds : List Float32) × (copy_rgb frame.rgb ≡ some ps)
      × (copy_depth metres frame.depth ≡ some ds)
      × (get_elem? ps (r * w + c)
          ≡ some (rgba_at rgb.bytes (r * magnitude frame.rgb.stride_bytes + c * 4)))
      × (get_elem? ds (r * w + c)
          ≡ some (depth_at metres depth.bytes (r * magnitude frame.depth.stride_bytes + c * 2)))
unfolding readable_of
accepted_frame_copied metres frame context rgb depth fr fd accepted layout r c hr hc =
    let ok = accepted-IsAcceptable frame context accepted in
    let l = layout_checked frame layout in
    let same = same_size frame.rgb.size frame.depth.size l.0 in
    let w : magnitude frame.rgb.size.width ≡ magnitude frame.depth.size.width =
      ap (λ s. magnitude s.width) same in
    let h : magnitude frame.rgb.size.height ≡ magnitude frame.depth.size.height =
      ap (λ s. magnitude s.height) same in
    let colours =
      copy_rgb_reads frame.rgb
        (readable_of 4 frame.rgb rgb (has_sane_image_bytes-ImageBounds frame.rgb fr ok.rgb_sane)
          l.1)
        r c hr hc in
    let depths =
      copy_depth_reads metres frame.depth
        (readable_of 2 frame.depth depth
          (has_sane_image_bytes-ImageBounds frame.depth fd ok.depth_sane) l.2)
        r c (omega (arith, hr, h)) (omega (arith, hc, w)) in
    (
      colours.0,
      depths.0,
      colours.1,
      depths.1,
      colours.3,
      ap (λ k. get_elem? depths.0 (r * k + c)) w ∙ depths.3,
    )
