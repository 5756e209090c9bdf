-- ===== src/Capture/Frame/Builder/Soundness.antt =====
-- A frame that K4aFrameBuilder.cpp builds, against what FrameValidator.cpp asks of it.
use edge_vision.Prelude.{
  ℕ, suc, ◌≡◌, ◌≢◌, refl, subst, sym, ◌∙◌, true, false, Option, Option-cases, inl, inr, none, some,
  arith,
}
use edge_vision.Model.Frame.{CameraIntrinsics, Frame, FrameTimestamp, is_empty}
use edge_vision.Model.Frame.Validator.{
  is_valid_timestamp, has_sane_image_bytes, is_valid_intrinsics, is_valid_size,
}
use edge_vision.Capture.{K4aInterface, K4aImage, Calibration, Machine}
use edge_vision.Capture.Frame.Validator
use edge_vision.Capture.Frame.Validator.{
  passed, is_sane_image_shape, validate_request, validate_color_image, validate_depth_image,
  validate_intrinsics, validate_depth_alignment, validate_transformed_depth_image_create,
  validate_transformation_create,
}
use edge_vision.Capture.Frame.Builder.{
  make_frame_image, copy_image_buffer, build_aligned, build_depth, build_color, build,
  DepthAlignmentResult, aligned, not_aligned, align_depth_to_color, align_with, transform_depth,
  create_depth_image, create_transformation, end_transformation, get_depth_image, get_color_image,
  assemble, end_image, make_intrinsics, build_with,
}

-- The conditions on a frame by itself.
pub record IsWellFormed (id : ℕ) (timestamp : FrameTimestamp) (frame : Frame) : Type 0 where
  pub same_id : frame.frame_id ≡ id
  pub same_timestamp : frame.timestamp ≡ timestamp
  pub rgb_present : is_empty frame.rgb.buffer ≡ false
  pub depth_present : is_empty frame.depth.buffer ≡ false
  pub rgb_sane : has_sane_image_bytes frame.rgb ≡ true
  pub depth_sane : has_sane_image_bytes frame.depth ≡ true
  pub intrinsics_valid : is_valid_intrinsics frame.intrinsics ≡ true

-- The two validators make the same test on the intrinsics.
intrinsics_agree : (k : CameraIntrinsics) → Validator.is_valid_intrinsics k ≡ is_valid_intrinsics k
unfolding Validator.is_valid_intrinsics is_valid_intrinsics
intrinsics_agree k = refl

validated_color :
    (o : Option K4aImage) (id : ℕ) (image : K4aImage)
    → validate_color_image o id ≡ passed image
    → is_sane_image_shape image 4 ≡ true
unfolding validate_color_image
validated_color o id image h = ground arith

validated_depth :
    (o : Option K4aImage) (id : ℕ) (image : K4aImage)
    → validate_depth_image o id ≡ passed image
    → is_sane_image_shape image 2 ≡ true
unfolding validate_depth_image
validated_depth o id image h = ground arith

none≢some : {A : Type 0} {a : A} → none ≢ some a
none≢some h = ground arith

-- The frame in a result that has not aligned; a failure carries none.
abbrev alignment_frame : DepthAlignmentResult → Option Frame
alignment_frame (aligned image) = none
alignment_frame (not_aligned failure) = failure.frame

module _ {W : Type 0} ⦃api : K4aInterface W⦄ where
  sane_shape :
      (image : K4aImage) (n : ℕ) (w : W)
      → is_sane_image_shape image (suc n) ≡ true
      → (has_sane_image_bytes (make_frame_image image w) ≡ true)
        × (is_empty (copy_image_buffer image w) ≡ false)
  unfolding is_sane_image_shape has_sane_image_bytes make_frame_image is_empty copy_image_buffer
      is_valid_size Validator.is_valid_size
  sane_shape image n w h = ground arith

  aligned_shape :
      (color depth : K4aImage) (c : Calibration) (id : ℕ) (ts : FrameTimestamp) (w : W) (f : Frame)
      → (build_aligned color depth c id ts w).frame ≡ some f
      → (is_sane_image_shape depth 2 ≡ true)
        × (Validator.is_valid_intrinsics (make_intrinsics c) ≡ true)
        × (assemble color depth (make_intrinsics c) id ts w ≡ f)
  unfolding build_aligned validate_depth_image validate_intrinsics
  aligned_shape color depth c id ts w f h = ground arith

  assembled :
      (color depth : K4aImage) (c : Calibration) (id : ℕ) (ts : FrameTimestamp) (w : W)
      → is_sane_image_shape color 4 ≡ true
      → is_sane_image_shape depth 2 ≡ true
      → is_valid_intrinsics (make_intrinsics c) ≡ true
      → IsWellFormed id ts (assemble color depth (make_intrinsics c) id ts w)
  unfolding assemble make_frame_image
  assembled color depth c id ts w sc sd v = record {
    same_id = refl;
    same_timestamp = refl;
    rgb_present = (sane_shape color 3 w sc).1;
    depth_present = (sane_shape depth 1 w sd).1;
    rgb_sane = (sane_shape color 3 w sc).0;
    depth_sane = (sane_shape depth 1 w sd).0;
    intrinsics_valid = v;
  }

  aligned_frame :
      (color depth : K4aImage) (c : Calibration) (id : ℕ) (ts : FrameTimestamp) (w : W) (f : Frame)
      → is_sane_image_shape color 4 ≡ true
      → (build_aligned color depth c id ts w).frame ≡ some f
      → IsWellFormed id ts f
  aligned_frame color depth c id ts w f s h =
      let a = aligned_shape color depth c id ts w f h in
      subst (IsWellFormed id ts) (a.2)
        (assembled color depth c id ts w s (a.0) (sym (intrinsics_agree (make_intrinsics c)) ∙ a.1))

  with_frame :
      (color : K4aImage) (c : Calibration) (id : ℕ) (ts : FrameTimestamp) (a : DepthAlignmentResult)
      (m : Machine W) (f : Frame)
      → is_sane_image_shape color 4 ≡ true
      → alignment_frame a ≡ none
      → (build_with color c id ts (a, m)).0.frame ≡ some f
      → IsWellFormed id ts f
  unfolding end_image
  with_frame color c id ts (not_aligned failure) m f s n h = absurd (none≢some (sym n ∙ h))
  with_frame color c id ts (aligned depth) m f s n h =
      aligned_frame color depth c id ts m.world f s h

  transform_fails :
      (id t : ℕ) (depth target : K4aImage) (m : Machine W)
      → alignment_frame (transform_depth id t depth target m).0 ≡ none
  unfolding transform_depth validate_depth_alignment end_image
  transform_fails id t depth target m = ground arith

  align_with_fails :
      (t : ℕ) (color depth : K4aImage) (id : ℕ) (m : Machine W)
      → alignment_frame (align_with t color depth id m).0 ≡ none
  unfolding align_with validate_transformed_depth_image_create
  align_with_fails t color depth id m = elim (Option-cases (create_depth_image color m).0) [
    | inl e ↦ ground (arith, e)
    | inr (target, e) ↦
        ground (arith, e, transform_fails id t depth target (create_depth_image color m).1)
  ]

  align_fails :
      (c : Calibration) (color depth : K4aImage) (id : ℕ) (m : Machine W)
      → alignment_frame (align_depth_to_color c color depth id m).0 ≡ none
  unfolding align_depth_to_color validate_transformation_create end_transformation
  align_fails c color depth id m = elim (Option-cases (create_transformation c m).0) [
    | inl e ↦ ground (arith, e)
    | inr (t, e) ↦
        ground (arith, e, align_with_fails t color depth id (create_transformation c m).1)
  ]

  depth_frame :
      (k : ℕ) (color : K4aImage) (c : Calibration) (id : ℕ) (ts : FrameTimestamp) (m : Machine W)
      (f : Frame)
      → is_sane_image_shape color 4 ≡ true
      → (build_depth k color c id ts m).0.frame ≡ some f
      → IsWellFormed id ts f
  unfolding build_depth end_image validate_depth_image
  depth_frame k color c id ts m f s h = elim (Option-cases (get_depth_image k m).0) [
    | inl e ↦ ground (arith, e)
    | inr (depth, e) ↦
        let a = align_depth_to_color c color depth id (get_depth_image k m).1 in
        ground (
          arith,
          e,
          with_frame color c id ts a.0 a.1 f s
              (align_fails c color depth id (get_depth_image k m).1),
        )
  ]

  color_frame :
      (k : ℕ) (c : Calibration) (id : ℕ) (ts : FrameTimestamp) (m : Machine W) (f : Frame)
      → (build_color k c id ts m).0.frame ≡ some f
      → IsWellFormed id ts f
  unfolding build_color end_image validate_color_image
  color_frame k c id ts m f h = elim (Option-cases (get_color_image k m).0) [
    | inl e ↦ ground (arith, e)
    | inr (color, e) ↦ ground (arith, e, depth_frame k color c id ts (get_color_image k m).1 f)
  ]

  -- A frame that the builder returns has the requested id and timestamp, the id is not 0, the
  -- timestamp is positive, and the frame meets the conditions that the model's validator puts on a
  -- frame by itself: buffers that are present, sane image shapes, valid intrinsics.
  pub build-IsWellFormed :
      (k : Option ℕ) (c : Calibration) (id : ℕ) (ts : FrameTimestamp) (m : Machine W) (f : Frame)
      → (build k c id ts m).0.frame ≡ some f
      → (id ≢ 0) × (is_valid_timestamp ts ≡ true) × IsWellFormed id ts f
  unfolding build validate_request is_valid_timestamp Validator.is_valid_timestamp
  build-IsWellFormed k c id ts m f h = elim (Option-cases k) [
    | inl e ↦ ground (arith, e)
    | inr (handle, e) ↦ ground (arith, e, color_frame handle c id ts m f)
  ]
