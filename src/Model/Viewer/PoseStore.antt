-- ===== src/Model/Viewer/PoseStore.antt =====
-- src/model/src/viewer/ViewerPoseStore.cpp. A method returns the new store beside its result.
pub mod Generations
pub mod Relative
use edge_vision.Prelude.{
  ℕ, ◌+◌, ◌*◌, ℤ, pos, Bool, true, false, not, ◌&&◌, List, [], ◌∷◌, map, Option, none, some, ltb,
  leb_ℤ, Float32, eq_float, inc64, get_elem?, if◌then◌else◌,
}
use edge_vision.Config.{ImageSize, size_eq}
use edge_vision.Model.Frame.{CameraIntrinsics}
use edge_vision.Model.Scene.{Pose4f, pose_eq}
use edge_vision.Model.Viewer.{ViewerPose}

pub record ViewerPoseStore : Type 0 where
  pub latest_pose : Option ViewerPose
  pub relative_baseline_pose : Option ViewerPose
  pub next_generation : ℕ

abbrev pub empty_store : ViewerPoseStore
empty_store = record { latest_pose = none; relative_baseline_pose = none; next_generation = 1 }

-- The sum and the product of floats, rounded as the machine does it.
pub record FloatArith : Type 0 where
  pub add : Float32 → Float32 → Float32
  pub mul : Float32 → Float32 → Float32

unfoldable pub has_newer_generation : Option ViewerPose → ℕ → Bool
has_newer_generation none generation = false
has_newer_generation (some latest) generation = ltb generation latest.generation

abbrev pub indices : List ℕ
indices = 0 ∷ 1 ∷ 2 ∷ 3 ∷ []

-- An entry of a matrix; the arrays have sixteen, so the default is not read.
abbrev pub entry : List Float32 → ℕ → Float32
entry m i = elim (get_elem? m i) [ none ↦ 0 | some x ↦ x ]

-- The inner loop of multiplyRowMajor, from `value`.
unfoldable pub dot : FloatArith → List Float32 → List Float32 → ℕ → ℕ → Float32 → List ℕ → Float32
dot fl lhs rhs row column value [] = value
dot fl lhs rhs row column value (index ∷ rest) =
    dot fl lhs rhs row column
      (fl.add value (fl.mul (entry lhs (row * 4 + index)) (entry rhs (index * 4 + column)))) rest

unfoldable pub multiply_row : FloatArith → List Float32 → List Float32 → ℕ → List ℕ → List Float32
unfolding dot
multiply_row fl lhs rhs row [] = []
multiply_row fl lhs rhs row (column ∷ rest) =
    dot fl lhs rhs row column 0 indices ∷ multiply_row fl lhs rhs row rest

unfoldable pub multiply_rows : FloatArith → List Float32 → List Float32 → List ℕ → List Float32
unfolding multiply_row
multiply_rows fl lhs rhs [] = []
multiply_rows fl lhs rhs (row ∷ rest) =
    edge_vision.Prelude.◌++◌ (multiply_row fl lhs rhs row indices) (multiply_rows fl lhs rhs rest)

unfoldable pub multiply_row_major : FloatArith → Pose4f → Pose4f → Pose4f
unfolding multiply_rows
multiply_row_major fl lhs rhs = record { matrix = multiply_rows fl lhs.matrix rhs.matrix indices }

unfoldable pub same_pose_request : ViewerPose → ViewerPose → Bool
same_pose_request a b =
    pose_eq a.pose b.pose
    && (eq_float a.intrinsics.fx b.intrinsics.fx
        && (eq_float a.intrinsics.fy b.intrinsics.fy
            && (eq_float a.intrinsics.cx b.intrinsics.cx
                && (eq_float a.intrinsics.cy b.intrinsics.cy
                    && size_eq a.image_size b.image_size))))

-- if (pose.generation < m_nextGeneration) pose.generation = m_nextGeneration;
abbrev pub at_least : ℕ → ViewerPose → ViewerPose
at_least next p = if ltb p.generation next then record p { generation = next } else p

-- The part that update and applyRelativePose share: the generation is raised, the counter follows
-- it, and the pose is the latest one.
unfoldable pub store_pose : ViewerPose → ViewerPoseStore → ViewerPoseStore × ViewerPose
store_pose p s =
    let q = at_least s.next_generation p in
    (record s { next_generation = inc64 q.generation; latest_pose = some q }, q)

unfoldable pub update : ViewerPose → ViewerPoseStore → ViewerPoseStore × ViewerPose
unfolding store_pose
update p s = store_pose p s

unfoldable pub reset_relative_baseline : ViewerPoseStore → ViewerPoseStore × Bool
reset_relative_baseline s = elim s.latest_pose [
  | none ↦ (record s { relative_baseline_pose = none }, false)
  | some p ↦ (record s { relative_baseline_pose = s.latest_pose }, true)
]

-- m_latestPose.has_value() && samePoseRequest(*m_latestPose, next)
abbrev pub repeats : Option ViewerPose → ViewerPose → Bool
repeats none next = false
repeats (some latest) next = same_pose_request latest next

unfoldable pub apply_relative_pose :
    FloatArith → Pose4f → ViewerPoseStore → ViewerPoseStore × Option ViewerPose
unfolding store_pose
apply_relative_pose fl relative s = elim s.relative_baseline_pose [
  | none ↦ (s, none)
  | some baseline ↦
      let next = record baseline { pose = multiply_row_major fl relative baseline.pose } in
      let (t, q) = store_pose next s in
      if repeats s.latest_pose next then (s, none) else (t, some q)
]

unfoldable pub latest : ViewerPoseStore → Option ViewerPose
latest s = s.latest_pose

-- `later` is the store as the wait finds it when it ends.
unfoldable pub wait_for_newer : ℕ → ℤ → ViewerPoseStore → ViewerPoseStore → Option ViewerPose
wait_for_newer generation timeout later s =
    if has_newer_generation s.latest_pose generation
    then s.latest_pose
    else if leb_ℤ timeout (pos 0)
    then none
    else if has_newer_generation later.latest_pose generation
    then later.latest_pose
    else none
