-- ===== src/Viewer.antt =====
-- src/viewer: the thread that renders the scene from the viewer's pose. InfiniTAM's visualisation
-- engine, its render state and its images are a library's, and enter as the interface Visualisation.
pub mod Pipeline
pub mod SceneViewer
pub mod Runner
use edge_vision.Prelude.{ℕ, ◌*◌, ◌≡◌, ℤ, pos, Float32, List, length}
use edge_vision.Config.{ImageSize}
use edge_vision.Model.Scene.{Pixel, Pose4f}

-- ITMIntrinsics, as SetFrom fills it.
pub record ItmIntrinsics : Type 0 where
  pub width : ℤ
  pub height : ℤ
  pub fx : Float32
  pub fy : Float32
  pub cx : Float32
  pub cy : Float32

-- The calls of InfiniTAM over the scene S and the state V of the engine, the render state and the
-- output image. A pose is given by the matrix that SetInvM takes. The laws are those of an image: it has
-- the size it was made with, and only a new one has another size.
pub record Visualisation (S V : Type 0) : Type 0 where
  pub make_engine : V → V
  pub make_render_state : S → ImageSize → V → V
  pub make_output_image : ImageSize → V → V
  pub find_visible_blocks : S → Pose4f → ItmIntrinsics → V → V
  pub create_expected_depths : S → Pose4f → ItmIntrinsics → V → V
  pub render_image : S → Pose4f → ItmIntrinsics → V → V
  pub copy_to_host : V → V
  pub image_size : V → ImageSize
  pub pixels : V → List Pixel
  pub made_size : (size : ImageSize) (v : V) → image_size (make_output_image size v) ≡ size
  pub visible_size :
      (scene : S) (pose : Pose4f) (i : ItmIntrinsics) (v : V)
      → image_size (find_visible_blocks scene pose i v) ≡ image_size v
  pub expected_size :
      (scene : S) (pose : Pose4f) (i : ItmIntrinsics) (v : V)
      → image_size (create_expected_depths scene pose i v) ≡ image_size v
  pub rendered_size :
      (scene : S) (pose : Pose4f) (i : ItmIntrinsics) (v : V)
      → image_size (render_image scene pose i v) ≡ image_size v
  pub copied_size : (v : V) → image_size (copy_to_host v) ≡ image_size v
  pub pixels_of_size :
      (width height : ℕ) (v : V)
      → image_size v ≡ record { width = pos width; height = pos height }
      → length (pixels v) ≡ width * height
