-- ===== src/App.antt =====
-- src/app: the helpers of the program's debug run. The file system and the division of doubles are the
-- machine's, and enter as the interfaces FileSystem and RateArith.
pub mod PoseSeeder
pub mod FrameDumper
pub mod DebugSession
use edge_vision.Prelude.{ℕ, ℤ, Bool, String, List}

-- std::filesystem and std::ofstream over the state F of the disk and of the open file. The result says
-- whether the call went without an error; a file name is a list of codes.
pub record FileSystem (F : Type 0) : Type 0 where
  pub create_directories : String → F → Bool × F
  pub open_truncated : String → List ℕ → F → Bool × F
  pub write : List ℕ → F → Bool × F

-- A double is its binary64 pattern; `rate` is static_cast<double>(count) / elapsed, `is_positive` the
-- test elapsed > 0.0, and `seconds` the duration between two times.
pub record RateArith : Type 0 where
  pub rate : ℕ → ℕ → ℕ
  pub is_positive : ℕ → Bool
  pub seconds : ℤ → ℤ → ℕ
