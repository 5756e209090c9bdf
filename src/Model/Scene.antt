-- ===== src/Model/Scene.antt =====
-- src/model/include/model/scene/types/version.hpp: what is recorded of a published scene.
pub mod VersionStore
pub mod Shared
use edge_vision.Prelude.{ℕ, List, [], ◌∷◌, Bool, true, false, ◌&&◌, Float32, eq_float}
use edge_vision.Model.Frame.{FrameTimestamp}

-- A row-major 4 x 4 matrix, as the list of its sixteen entries.
pub record Pose4f : Type 0 where
  pub matrix : List Float32

-- operator== on the arrays.
unfoldable pub matrix_eq : List Float32 → List Float32 → Bool
matrix_eq [] [] = true
matrix_eq [] (y ∷ ys) = false
matrix_eq (x ∷ xs) [] = false
matrix_eq (x ∷ xs) (y ∷ ys) = eq_float x y && matrix_eq xs ys

unfoldable pub pose_eq : Pose4f → Pose4f → Bool
unfolding matrix_eq
pose_eq a b = matrix_eq a.matrix b.matrix

pub data TrackingStatus : Type 0 where
  not_run tracked lost : TrackingStatus

pub data IntegrationStatus : Type 0 where
  skipped integrated integration_failed : IntegrationStatus

pub record SceneVersion : Type 0 where
  pub version_id : ℕ
  pub timestamp : FrameTimestamp
  pub last_integrated_frame_id : ℕ
  pub camera_to_world : Pose4f
  pub tracking_status : TrackingStatus
  pub integration_status : IntegrationStatus

-- A pixel of InfiniTAM's colour images, Vector4u.
pub record Pixel : Type 0 where
  pub r : ℕ
  pub g : ℕ
  pub b : ℕ
  pub a : ℕ
