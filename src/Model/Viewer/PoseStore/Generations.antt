-- ===== src/Model/Viewer/PoseStore/Generations.antt =====
-- The generations that ViewerPoseStore.cpp gives out, and the threads that wait for a newer one.
use edge_vision.Prelude.{ℕ, ◌+◌, ◌≤◌, ◌<◌, ◌≡◌, ℤ, Option, none, some, arith, u64_mod}
use edge_vision.Model.Viewer.{ViewerPose}
use edge_vision.Model.Viewer.PoseStore.{
  ViewerPoseStore, update, wait_for_newer, has_newer_generation,
}

abbrev pub Precedes : Option ViewerPose → ℕ → Type 0
Precedes none generation = Unit {0}
Precedes (some p) generation = p.generation < generation

-- The next generation is newer than the stored pose and than the baseline.
pub record PoseInv (s : ViewerPoseStore) : Type 0 where
  pub latest_older : Precedes s.latest_pose s.next_generation
  pub baseline_older : Precedes s.relative_baseline_pose s.next_generation

-- Until the counter is used up, a stored pose gets a generation that is newer than every one given
-- out before; the store stays in order; and a thread that has seen any of those is given this pose
-- without a wait.
pub update_is_newer :
    (p : ViewerPose) (s : ViewerPoseStore) (seen : ℕ) (timeout : ℤ) (later : ViewerPoseStore)
    → PoseInv s
    → p.generation + 1 < u64_mod
    → s.next_generation + 1 < u64_mod
    → seen < s.next_generation
    → (s.next_generation ≤ (update p s).1.generation)
      × PoseInv (update p s).0
      × (wait_for_newer seen timeout later (update p s).0 ≡ some (update p s).1)
unfolding update wait_for_newer has_newer_generation
update_is_newer p s seen timeout later v hp hs h = ground arith
