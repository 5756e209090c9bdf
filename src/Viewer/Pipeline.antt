-- ===== src/Viewer/Pipeline.antt =====
-- src/viewer/src/state/InfiniTamViewerPipeline.cpp. A read outside the output image, which C++ leaves
-- undefined, gives a black pixel here.
pub mod Packing
use edge_vision.Prelude.{
  ℕ, zero, suc, ◌+◌, ◌*◌, ◌%◌, ℤ, Bool, true, false, not, ◌||◌, List, [], ◌∷◌, none, some, length,
  get_elem?, to_u64, u64_mod, if◌then◌else◌,
}
use edge_vision.Config.{ImageSize, size_eq}
use edge_vision.Model.Frame.{FrameBuffer}
use edge_vision.Model.Viewer.{ViewerPose, RenderOutput}
use edge_vision.Model.Scene.{Pixel}
use edge_vision.Viewer.{ItmIntrinsics, Visualisation}

-- `has_engine` says that m_visualisationEngine is not null.
pub record ViewerPipeline (V : Type 0) : Type 0 where
  pub state : V
  pub render_image_size : ImageSize
  pub has_layout : Bool
  pub has_engine : Bool

unfoldable pub needs_layout_reset : {V : Type 0} → ViewerPose → ViewerPipeline V → Bool
unfolding size_eq
needs_layout_reset pose p = not p.has_layout || not (size_eq pose.image_size p.render_image_size)

unfoldable pub make_intrinsics : ViewerPose → ItmIntrinsics
make_intrinsics pose = record {
  width = pose.image_size.width;
  height = pose.image_size.height;
  fx = pose.intrinsics.fx;
  fy = pose.intrinsics.fy;
  cx = pose.intrinsics.cx;
  cy = pose.intrinsics.cy;
}

abbrev pub black : Pixel
black = record { r = 0; g = 0; b = 0; a = 0 }

-- source[index]
abbrev pub pixel_at : List Pixel → ℕ → Pixel
pixel_at source index = elim (get_elem? source index) [ none ↦ black | some p ↦ p ]

-- (*storage)[index] = byte
abbrev pub write : ℕ → ℕ → List ℕ → List ℕ
write index byte [] = []
write zero byte (x ∷ xs) = byte ∷ xs
write (suc index) byte (x ∷ xs) = x ∷ write index byte xs

-- The body of the loop in makeRgbBuffer.
unfoldable pub write_pixel : List Pixel → ℕ → List ℕ → List ℕ
write_pixel source index storage =
    let p = pixel_at source index in
    write (index * 3 + 2) p.b (write (index * 3 + 1) p.g (write (index * 3) p.r storage))

-- `remaining` is pixelCount - index.
unfoldable pub pixel_loop : ℕ → ℕ → List Pixel → List ℕ → List ℕ
pixel_loop zero index source storage = storage
pixel_loop (suc remaining) index source storage =
    pixel_loop remaining (index + 1) source (write_pixel source index storage)

abbrev pub zero_bytes : ℕ → List ℕ
zero_bytes zero = []
zero_bytes (suc n) = 0 ∷ zero_bytes n

-- static_cast<std::size_t>(width) * static_cast<std::size_t>(height)
abbrev pub pixel_count : ImageSize → ℕ
pixel_count size = to_u64 size.width * to_u64 size.height % u64_mod

-- makeRgbBuffer on the pixels of the output image.
unfoldable pub make_rgb_buffer : ImageSize → List Pixel → FrameBuffer
unfolding pixel_loop
make_rgb_buffer size source =
    let storage = zero_bytes (pixel_count size * 3 % u64_mod) in
    record {
      bytes = some (pixel_loop (pixel_count size) 0 source storage);
      byte_count = length (pixel_loop (pixel_count size) 0 source storage);
      owned = true;
    }

module _ {S V : Type 0} ⦃vis : Visualisation S V⦄ where
  unfoldable pub reset_layout : S → ViewerPose → ViewerPipeline V → ViewerPipeline V
  reset_layout scene pose p =
      let engine = if p.has_engine then p.state else vis.make_engine p.state in
      record {
        state =
            vis.make_output_image pose.image_size
              (vis.make_render_state scene pose.image_size engine);
        render_image_size = pose.image_size;
        has_layout = true;
        has_engine = true;
      }

  -- The calls of the visualisation engine in render, and copyRenderToHost.
  unfoldable pub visualise : S → ViewerPose → V → V
  visualise scene pose v =
      let i = make_intrinsics pose in
      let m = pose.pose in
      vis.copy_to_host (
        vis.render_image scene m i
          (vis.create_expected_depths scene m i (vis.find_visible_blocks scene m i v)))

  abbrev pub laid_out : S → ViewerPose → ViewerPipeline V → ViewerPipeline V
  laid_out scene pose p = if needs_layout_reset pose p then reset_layout scene pose p else p

  -- `now` is the time at which the output is complete.
  unfoldable pub render :
      S → ℕ → ℤ → ViewerPose → ViewerPipeline V → ViewerPipeline V × RenderOutput
  unfolding make_rgb_buffer
  render scene version now pose p =
      let q = laid_out scene pose p in
      let v = visualise scene pose q.state in
      (
        record q { state = v },
        record {
          rgb = make_rgb_buffer q.render_image_size (vis.pixels v);
          image_size = pose.image_size;
          pose_generation = pose.generation;
          scene_version_id = version;
          render_timestamp = now;
          cached = false;
        },
      )
