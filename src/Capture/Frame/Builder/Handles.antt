-- ===== src/Capture/Frame/Builder/Handles.antt =====
-- The handles that K4aFrameBuilder.cpp takes from the SDK and gives back.
use edge_vision.Prelude.{
  ℕ, ◌+◌, ◌≡◌, refl, Bool, List, [], ◌∷◌, Option, none, some, arith, Option-cases, inl, inr,
  if◌then◌else◌,
}
use edge_vision.Model.Frame.{FrameTimestamp}
use edge_vision.Capture.{
  K4aInterface, K4aImage, Calibration, Machine, Call, log, unlogged, logged, acquired_image,
  acquired_transformation, acquired_capture, released_image, released_capture,
  released_transformation,
}
use edge_vision.Capture.Frame.{FrameBuildResult}
use edge_vision.Capture.Frame.Validator.{
  failing, passed, validate_request, validate_color_image, validate_depth_image,
  validate_depth_alignment, validate_transformation_create, validate_transformed_depth_image_create,
}
use edge_vision.Capture.Frame.Builder.{
  DepthAlignmentResult, aligned, not_aligned, get_color_image, get_depth_image, create_depth_image,
  create_transformation, end_image, end_transformation, transform_depth, align_with,
  align_depth_to_color, build_depth, build_color, build, build_with,
}

-- What a handle of the SDK stands for.
pub data Resource : Type 0 where
  image capture transformation : ℕ → Resource

module _ (p : Resource → Bool) where
  abbrev pub one : Resource → ℕ
  one r = if p r then 1 else 0

  abbrev acquires : Call → ℕ
  acquires (acquired_image h) = one (image h)
  acquires (acquired_capture h) = one (capture h)
  acquires (acquired_transformation h) = one (transformation h)
  acquires _ = 0

  abbrev releases : Call → ℕ
  releases (released_image h) = one (image h)
  releases (released_capture h) = one (capture h)
  releases (released_transformation h) = one (transformation h)
  releases _ = 0

  -- The number of resources with `p` that the calls took.
  unfoldable pub acquisitions : List Call → ℕ
  acquisitions [] = 0
  acquisitions (c ∷ cs) = acquires c + acquisitions cs

  -- The number of resources with `p` that the calls gave back.
  unfoldable pub given_back : List Call → ℕ
  given_back [] = 0
  given_back (c ∷ cs) = releases c + given_back cs

  -- Between the states, `n` more resources with `p` were taken than given back.
  abbrev pub Owes : {W : Type 0} → ℕ → Machine W → Machine W → Type 0
  Owes n before after =
      acquisitions after.calls + given_back before.calls
      ≡ n + acquisitions before.calls + given_back after.calls

  abbrev image_weight : Option K4aImage → ℕ
  image_weight none = 0
  image_weight (some i) = one (image i.handle)

  abbrev transformation_weight : Option ℕ → ℕ
  transformation_weight none = 0
  transformation_weight (some h) = one (transformation h)

  abbrev alignment_weight : DepthAlignmentResult → ℕ
  alignment_weight (not_aligned failure) = 0
  alignment_weight (aligned i) = one (image i.handle)

  module _ {W : Type 0} ⦃api : K4aInterface W⦄ where
    color_owed :
        (c : ℕ) (m : Machine W)
        → Owes (image_weight (get_color_image c m).0) m (get_color_image c m).1
    unfolding get_color_image acquisitions given_back logged unlogged
    color_owed c m = ground arith

    depth_owed :
        (c : ℕ) (m : Machine W)
        → Owes (image_weight (get_depth_image c m).0) m (get_depth_image c m).1
    unfolding get_depth_image acquisitions given_back logged unlogged
    depth_owed c m = ground arith

    created_owed :
        (color : K4aImage) (m : Machine W)
        → Owes (image_weight (create_depth_image color m).0) m (create_depth_image color m).1
    unfolding create_depth_image acquisitions given_back logged unlogged
    created_owed color m = ground arith

    transformation_owed :
        (c : Calibration) (m : Machine W)
        → Owes (transformation_weight (create_transformation c m).0) m (create_transformation c m).1
    unfolding create_transformation acquisitions given_back logged unlogged
    transformation_owed c m = ground arith

    end_image_pays :
        {R : Type 0} (i : Option K4aImage) (x : R × Machine W)
        → acquisitions (end_image i x).1.calls ≡ acquisitions x.1.calls
          × given_back (end_image i x).1.calls ≡ image_weight i + given_back x.1.calls
    unfolding end_image acquisitions given_back log
    end_image_pays none x = (refl, omega arith)
    end_image_pays (some i) x = (omega arith, refl)

    end_image_result :
        {R : Type 0} (i : Option K4aImage) (x : R × Machine W) → (end_image i x).0 ≡ x.0
    unfolding end_image
    end_image_result none x = refl
    end_image_result (some i) x = refl

    end_transformation_pays :
        {R : Type 0} (i : Option ℕ) (x : R × Machine W)
        → acquisitions (end_transformation i x).1.calls ≡ acquisitions x.1.calls
          × given_back (end_transformation i x).1.calls
            ≡ transformation_weight i + given_back x.1.calls
    unfolding end_transformation acquisitions given_back log
    end_transformation_pays none x = (refl, omega arith)
    end_transformation_pays (some i) x = (omega arith, refl)

    transform_owed :
        (id t : ℕ) (depth target : K4aImage) (m : Machine W)
        → alignment_weight (transform_depth id t depth target m).0
            + acquisitions m.calls
            + given_back (transform_depth id t depth target m).1.calls
          ≡ one (image target.handle)
            + acquisitions (transform_depth id t depth target m).1.calls
            + given_back m.calls
    unfolding transform_depth unlogged validate_depth_alignment end_image acquisitions given_back
        log
    transform_owed id t depth target m = ground arith

    align_with_owed :
        (t : ℕ) (color depth : K4aImage) (id : ℕ) (m : Machine W)
        → Owes
            (alignment_weight (align_with t color depth id m).0)
            m
            (align_with t color depth id m).1
    unfolding align_with validate_transformed_depth_image_create
    align_with_owed t color depth id m = elim (Option-cases (create_depth_image color m).0) [
      | inl e ↦ ground (arith, e, created_owed color m)
      | inr (target, e) ↦ ground (
        arith,
        e,
        created_owed color m,
        transform_owed id t depth target (create_depth_image color m).1,
      )
    ]

    align_owed :
        (c : Calibration) (color depth : K4aImage) (id : ℕ) (m : Machine W)
        → Owes
            (alignment_weight (align_depth_to_color c color depth id m).0)
            m
            (align_depth_to_color c color depth id m).1
    unfolding align_depth_to_color validate_transformation_create end_transformation acquisitions
        given_back log
    align_owed c color depth id m = elim (Option-cases (create_transformation c m).0) [
      | inl e ↦ ground (arith, e, transformation_owed c m)
      | inr (t, e) ↦ ground (
        arith,
        e,
        transformation_owed c m,
        align_with_owed t color depth id (create_transformation c m).1,
      )
    ]

    build_with_owed :
        (color : K4aImage) (c : Calibration) (id : ℕ) (ts : FrameTimestamp)
        (a : DepthAlignmentResult) (m : Machine W)
        → Owes (alignment_weight a) (build_with color c id ts (a, m)).1 m
    unfolding end_image acquisitions given_back log
    build_with_owed color c id ts (not_aligned failure) m = omega arith
    build_with_owed color c id ts (aligned depth) m = omega arith

    build_depth_owed :
        (h : ℕ) (color : K4aImage) (c : Calibration) (id : ℕ) (ts : FrameTimestamp) (m : Machine W)
        → Owes 0 m (build_depth h color c id ts m).1
    unfolding build_depth end_image acquisitions given_back log validate_depth_image
    build_depth_owed h color c id ts m = elim (Option-cases (get_depth_image h m).0) [
      | inl e ↦ ground (arith, e, depth_owed h m)
      | inr (depth, e) ↦
          let a = align_depth_to_color c color depth id (get_depth_image h m).1 in
          ground (
            arith,
            e,
            depth_owed h m,
            align_owed c color depth id (get_depth_image h m).1,
            build_with_owed color c id ts a.0 a.1,
          )
    ]

    build_color_owed :
        (h : ℕ) (c : Calibration) (id : ℕ) (ts : FrameTimestamp) (m : Machine W)
        → Owes 0 m (build_color h c id ts m).1
    unfolding build_color end_image acquisitions given_back log validate_color_image
    build_color_owed h c id ts m = elim (Option-cases (get_color_image h m).0) [
      | inl e ↦ ground (arith, e, color_owed h m)
      | inr (color, e) ↦
          ground
            (arith, e, color_owed h m, build_depth_owed h color c id ts (get_color_image h m).1)
    ]

    -- Building a frame gives back each image and each transformation that it takes from the SDK as
    -- often as it takes it, on success and on every failure, and takes no capture.
    pub build_returns_handles :
        (h : Option ℕ) (c : Calibration) (id : ℕ) (ts : FrameTimestamp) (m : Machine W)
        → Owes 0 m (build h c id ts m).1
    unfolding build
    build_returns_handles h c id ts m =
        elim (validate_request h id ts)
          as (λ r.
            Owes 0 m
              (elim r as (λ x. FrameBuildResult × Machine W) [
                | failing failure ↦ (failure, m)
                | passed handle ↦ build_color handle c id ts m
              ]).1) [ failing f ↦ omega arith | passed handle ↦ build_color_owed handle c id ts m ]
