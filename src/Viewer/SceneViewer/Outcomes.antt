-- ===== src/Viewer/SceneViewer/Outcomes.antt =====
-- What a call of renderPose in SceneViewer.cpp leaves behind.
use edge_vision.Prelude.{
  ℕ, ◌+◌, ◌*◌, ◌%◌, ◌<◌, ◌≤◌, ◌≡◌, refl, sym, ap, ◌∙◌, ◌⊎◌, ◌↔◌, inl, inr, arith, ℤ, pos, negsuc,
  Bool, true, false, ◌&&◌, List, Option, none, some, length, Bool-cases, subst, and_left, if_true,
  if_false, u64_mod,
}
use edge_vision.Config.{ImageSize, same_size}
use edge_vision.Model.Scene.Shared.{SharedSceneState, arrive_read, acquire_read, release}
use edge_vision.Model.Viewer.{ViewerPose, RenderOutput}
use edge_vision.Model.Viewer.OutputStore.{latest, publish}
use edge_vision.Model.Scene.{Pixel}
use edge_vision.Viewer.{Visualisation}
use edge_vision.Viewer.Pipeline.{
  ViewerPipeline, needs_layout_reset, reset_layout, laid_out, visualise, render, make_rgb_buffer,
}
use edge_vision.Viewer.Pipeline.Packing.{rgb_bytes, make_rgb_buffer-rgb_bytes}
use edge_vision.Viewer.SceneViewer.{
  SceneViewer, has_valid_image_size, has_valid_intrinsics, repeats_latest, render_with_access,
  render_pose,
}

-- The test that renderPose makes before anything else.
abbrev pub is_renderable : ViewerPose → Bool
is_renderable pose = has_valid_image_size pose.image_size && has_valid_intrinsics pose.intrinsics

-- A read access that is taken and given back leaves the scene's lock as it was, but for the claim
-- of a blocked reader.
read_released :
    (s : SharedSceneState)
    → s.active_reader_count + 1 < u64_mod
    → release (acquire_read (arrive_read s)).1 (acquire_read (arrive_read s)).0
      ≡ record s { blocked_priority_read_pending = false }
unfolding release acquire_read arrive_read
read_released s h = ground arith

-- A valid size, with the bounds that keep its pixel count exact.
abbrev pub Sized : ImageSize → Type 0
Sized size =
    (w h : ℕ) × (size ≡ record { width = pos w; height = pos h })
    × ((0 < w) × (w ≤ 16384))
    × ((0 < h) × (h ≤ 16384))

dimension_bounds :
    (w h : ℤ)
    → has_valid_image_size (record { width = w; height = h }) ≡ true
    → Sized (record { width = w; height = h })
unfolding has_valid_image_size
dimension_bounds (pos w) (pos h) v = (w, h, refl, ground (arith, v), ground (arith, v))
dimension_bounds (pos w) (negsuc h) v = ground (arith, v)
dimension_bounds (negsuc w) (pos h) v = ground (arith, v)
dimension_bounds (negsuc w) (negsuc h) v = ground (arith, v)

size_bounds : (pose : ViewerPose) → is_renderable pose ≡ true → Sized pose.image_size
size_bounds pose e =
    dimension_bounds pose.image_size.width pose.image_size.height
      (and_left (has_valid_image_size pose.image_size) (has_valid_intrinsics pose.intrinsics) e)

-- The product of two bounded dimensions is far from the wrap-around.
area_bound : (w h : ℕ) → w ≤ 16384 → h ≤ 16384 → w * h ≤ 268435456
area_bound w h bw bh = grind (arith, bw, bh)

-- The bytes of a rendering are those of an image of the requested size.
abbrev pub Painted : ViewerPose → RenderOutput → Type 0
Painted pose output =
    (w h : ℕ) × (pixels : List Pixel) × (pose.image_size ≡ record { width = pos w; height = pos h })
    × (length pixels ≡ w * h)
    × (output.rgb
        ≡ record { bytes = some (rgb_bytes pixels); byte_count = w * h * 3; owned = true })

pixel_count_exact : (w h : ℕ) → w * h ≤ 268435456 → w * h % u64_mod ≡ w * h
pixel_count_exact w h b = omega (arith, b)

buffer_painted :
    (pose : ViewerPose) (w h : ℕ) (pixels : List Pixel)
    → w ≤ 16384
    → h ≤ 16384
    → pose.image_size ≡ record { width = pos w; height = pos h }
    → length pixels ≡ w * h
    → make_rgb_buffer pose.image_size pixels
      ≡ record { bytes = some (rgb_bytes pixels); byte_count = w * h * 3; owned = true }
buffer_painted pose w h pixels bw bh e n =
    let area = area_bound w h bw bh in
    ap (λ size. make_rgb_buffer size pixels) e
    ∙ make_rgb_buffer-rgb_bytes (record { width = pos w; height = pos h }) pixels
        (pixel_count_exact w h area ∙ sym n) (omega (arith, n, area))
    ∙ ap (λ k. record { bytes = some (rgb_bytes pixels); byte_count = k * 3; owned = true }) n

-- The output before had this generation and this version.
abbrev pub IsRepeat : Option RenderOutput → ℕ → ℕ → Type 0
IsRepeat before generation version =
    (last : RenderOutput) × (before ≡ some last)
    × (last.pose_generation ≡ generation)
    × (last.scene_version_id ≡ version)

repeats_iff :
    (before : Option RenderOutput) (o : RenderOutput)
    → (repeats_latest before o ≡ true) ↔ IsRepeat before o.pose_generation o.scene_version_id
unfolding repeats_latest
repeats_iff none o = (λ e. ground (arith, e), λ (last, e, g, v). ground (arith, e))
repeats_iff (some last) o = (
  λ e. (last, refl, ground (arith, e), ground (arith, e)),
  λ (before, e, g, v). ground (arith, e, g, v),
)

module _ (S : Type 0) {V : Type 0} ⦃vis : Visualisation S V⦄ where
  -- The output image has the size that the layout was made for, once it was made.
  abbrev pub HasLayout : ViewerPipeline V → Type 0
  HasLayout p = (p.has_layout ≡ false) ⊎ (vis.image_size p.state ≡ p.render_image_size)

  reset_size :
      (scene : S) (pose : ViewerPose) (p : ViewerPipeline V)
      → (vis.image_size (reset_layout scene pose p).state ≡ pose.image_size)
        × ((reset_layout scene pose p).render_image_size ≡ pose.image_size)
  unfolding reset_layout
  reset_size scene pose p = (vis.made_size _ _, refl)

  laid_out_size :
      (scene : S) (pose : ViewerPose) (p : ViewerPipeline V)
      → HasLayout p
      → (vis.image_size (laid_out scene pose p).state ≡ pose.image_size)
        × ((laid_out scene pose p).render_image_size ≡ pose.image_size)
  unfolding needs_layout_reset
  laid_out_size scene pose p inv =
      ground (arith, inv, reset_size scene pose p, same_size pose.image_size p.render_image_size)

  visualise_size :
      (scene : S) (pose : ViewerPose) (v : V)
      → vis.image_size (visualise scene pose v) ≡ vis.image_size v
  unfolding visualise
  visualise_size scene pose v =
      vis.copied_size _
      ∙ vis.rendered_size scene pose.pose _ _
      ∙ vis.expected_size scene pose.pose _ _
      ∙ vis.visible_size scene pose.pose _ _

  render-HasLayout :
      (scene : S) (version : ℕ) (now : ℤ) (pose : ViewerPose) (p : ViewerPipeline V)
      → HasLayout p
      → HasLayout (render scene version now pose p).0
  unfolding render
  render-HasLayout scene version now pose p inv =
      let l = laid_out_size scene pose p inv in
      inr (visualise_size scene pose (laid_out scene pose p).state ∙ l.0 ∙ sym l.1)

  render-Painted :
      (scene : S) (version : ℕ) (now : ℤ) (pose : ViewerPose) (p : ViewerPipeline V)
      → Sized pose.image_size
      → HasLayout p
      → Painted pose (render scene version now pose p).1
  unfolding render
  render-Painted scene version now pose p (w, h, e, bw, bh) inv =
      let l = laid_out_size scene pose p inv in
      let v = visualise scene pose (laid_out scene pose p).state in
      let n = vis.pixels_of_size w h v (visualise_size scene pose _ ∙ l.0 ∙ e) in
      (
        w,
        h,
        vis.pixels v,
        e,
        n,
        ap (λ size. make_rgb_buffer size (vis.pixels v)) l.1
            ∙ buffer_painted pose w h (vis.pixels v) bw.1 bh.1 e n,
      )

  -- What publishing a rendering leaves: the output is the store's latest, made from the pose and the
  -- scene's version, with all its pixels; it is marked as cached as the output before it demands; the
  -- read access is over.
  pub record Rendered (scene : S) (pose : ViewerPose) (s t : SceneViewer V) (output : RenderOutput)
      : Type 0 where
    pub published : t.outputs ≡ publish output s.outputs
    pub generation : output.pose_generation ≡ pose.generation
    pub version : output.scene_version_id ≡ s.shared.scene_version_id
    pub size : output.image_size ≡ pose.image_size
    pub painted : Painted pose output
    pub cached :
        (output.cached ≡ true)
        ↔ IsRepeat (latest s.outputs) pose.generation s.shared.scene_version_id
    pub unlocked : t.shared ≡ record (s.shared) { blocked_priority_read_pending = false }
    pub layout : HasLayout t.pipeline

  rendered :
      (scene : S) (now : ℤ) (pose : ViewerPose) (s : SceneViewer V)
      → Sized pose.image_size
      → HasLayout s.pipeline
      → s.shared.active_reader_count + 1 < u64_mod
      → let t =
          render_with_access scene now pose
            (acquire_read (arrive_read s.shared)).1
            (record s { shared = (acquire_read (arrive_read s.shared)).0 }) in
        (o : RenderOutput) × (t.1 ≡ some o) × Rendered scene pose s t.0 o
  unfolding render_with_access render acquire_read arrive_read
  rendered scene now pose s sized inv n =
      let version = s.shared.scene_version_id in
      let o = (render scene version now pose s.pipeline).1 in
      let b = repeats_latest (latest s.outputs) o in
      (
        record o { cached = b },
        refl,
        record {
          published = refl;
          generation = refl;
          version = refl;
          size = refl;
          painted = render-Painted scene version now pose s.pipeline sized inv;
          cached = repeats_iff (latest s.outputs) o;
          unlocked = read_released s.shared n;
          layout = render-HasLayout scene version now pose s.pipeline inv;
        },
      )

  renders :
      (scene : S) (now : ℤ) (pose : ViewerPose) (s : SceneViewer V)
      → HasLayout s.pipeline
      → s.shared.active_reader_count + 1 < u64_mod
      → is_renderable pose ≡ true
      → (o : RenderOutput) × ((render_pose scene now pose s).1 ≡ some o)
        × Rendered scene pose s (render_pose scene now pose s).0 o
  unfolding render_pose
  renders scene now pose s inv n e =
      let x =
        render_with_access scene now pose (acquire_read (arrive_read s.shared)).1
          (record s { shared = (acquire_read (arrive_read s.shared)).0 }) in
      subst (λ r. (o : RenderOutput) × (r.1 ≡ some o) × Rendered scene pose s r.0 o)
        (sym (if_true (is_renderable pose) x (s, none) e))
        (rendered scene now pose s (size_bounds pose e) inv n)

  -- The two ends of renderPose.
  abbrev pub Ends : S → ViewerPose → SceneViewer V → SceneViewer V × Option RenderOutput → Type 0
  Ends scene pose s (t, result) =
      ((is_renderable pose ≡ false) × (t ≡ s) × (result ≡ none))
      ⊎ ((is_renderable pose ≡ true)
          × ((o : RenderOutput) × (result ≡ some o) × Rendered scene pose s t o))

  -- A call of renderPose either refuses a pose whose image size or intrinsics are out of range,
  -- and then changes nothing, or publishes exactly one output: with the pose's generation and the version
  -- of the scene, three bytes for every pixel of the requested size, and marked as cached just when the
  -- latest output has the same generation and version. The read access is given back either way.
  pub render_pose-Ends :
      (scene : S) (now : ℤ) (pose : ViewerPose) (s : SceneViewer V)
      → HasLayout s.pipeline
      → s.shared.active_reader_count + 1 < u64_mod
      → Ends scene pose s (render_pose scene now pose s)
  unfolding render_pose
  render_pose-Ends scene now pose s inv n =
      let x =
        render_with_access scene now pose (acquire_read (arrive_read s.shared)).1
          (record s { shared = (acquire_read (arrive_read s.shared)).0 }) in
      elim (Bool-cases (is_renderable pose)) [
        | inl e ↦ inr (e, renders scene now pose s inv n e)
        | inr e ↦
            subst (Ends scene pose s) (sym (if_false (is_renderable pose) x (s, none) e))
              (inl (e, refl, refl))
      ]

  second_cached :
      (scene : S) (pose : ViewerPose) (s t u : SceneViewer V) (o p : RenderOutput)
      → Rendered scene pose s t o
      → Rendered scene pose t u p
      → p.cached ≡ true
  unfolding publish latest
  second_cached scene pose s t u o p first second = second.cached.1 (
    o,
    ap latest first.published,
    first.generation,
    first.version ∙ sym (ap (λ shared. shared.scene_version_id) first.unlocked),
  )

  -- When a pose was rendered, and nothing was published since, rendering it again at the same version of
  -- the scene marks the output as cached.
  pub render_pose_again :
      (scene : S) (now later : ℤ) (pose : ViewerPose) (s : SceneViewer V)
      → HasLayout s.pipeline
      → s.shared.active_reader_count + 1 < u64_mod
      → is_renderable pose ≡ true
      → (o : RenderOutput) × ((render_pose scene later pose (render_pose scene now pose s).0).1
          ≡ some o)
        × (o.cached ≡ true)
  render_pose_again scene now later pose s inv n e =
      let (o, f, first) = renders scene now pose s inv n e in
      let t = (render_pose scene now pose s).0 in
      let (p, g, second) =
        renders scene later pose t first.layout
          (subst (λ k. k.active_reader_count + 1 < u64_mod) (sym first.unlocked) n) e in
      (p, g, second_cached scene pose s t (render_pose scene later pose t).0 o p first second)
