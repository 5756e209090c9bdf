-- ===== src/Model/Viewer/PoseStore/Relative.antt =====
-- Relative poses in ViewerPoseStore.cpp.
use edge_vision.Prelude.{
  subst, Option, ℕ, ◌+◌, ◌*◌, ◌<◌, ◌≤◌, ◌≡◌, refl, true, false, List, [], ◌∷◌, none, some, arith,
  All, Float32, is_nan, eq_float, eq_ℤ, ℤ, pos, negsuc, zero, suc, inl, inr, ◌⊎◌, Bool-cases, inc64,
}
use edge_vision.Config.{ImageSize, size_eq, same_size}
use edge_vision.Model.Scene.{Pose4f, pose_eq, matrix_eq}
use edge_vision.Model.Viewer.{ViewerPose}
use edge_vision.Model.Viewer.PoseStore.{
  ViewerPoseStore, FloatArith, apply_relative_pose, same_pose_request, multiply_row_major, entry,
  repeats, at_least,
}

-- The products are summed from 0.0 in the order of the index, for each of the sixteen entries.
pub multiply_entry :
    (fl : FloatArith) (lhs rhs : Pose4f) (row column : ℕ)
    → row < 4
    → column < 4
    → let term = λ (index : ℕ).
      fl.mul (entry lhs.matrix (row * 4 + index)) (entry rhs.matrix (index * 4 + column)) in
      entry (multiply_row_major fl lhs rhs).matrix (row * 4 + column)
      ≡ fl.add (fl.add (fl.add (fl.add 0 (term 0)) (term 1)) (term 2)) (term 3)
unfolding multiply_row_major
multiply_entry fl lhs rhs zero zero hr hc = refl
multiply_entry fl lhs rhs zero (suc zero) hr hc = refl
multiply_entry fl lhs rhs zero (suc (suc zero)) hr hc = refl
multiply_entry fl lhs rhs zero (suc (suc (suc zero))) hr hc = refl
multiply_entry fl lhs rhs zero (suc (suc (suc (suc column)))) hr hc = absurd (omega arith)
multiply_entry fl lhs rhs (suc zero) zero hr hc = refl
multiply_entry fl lhs rhs (suc zero) (suc zero) hr hc = refl
multiply_entry fl lhs rhs (suc zero) (suc (suc zero)) hr hc = refl
multiply_entry fl lhs rhs (suc zero) (suc (suc (suc zero))) hr hc = refl
multiply_entry fl lhs rhs (suc zero) (suc (suc (suc (suc column)))) hr hc = absurd (omega arith)
multiply_entry fl lhs rhs (suc (suc zero)) zero hr hc = refl
multiply_entry fl lhs rhs (suc (suc zero)) (suc zero) hr hc = refl
multiply_entry fl lhs rhs (suc (suc zero)) (suc (suc zero)) hr hc = refl
multiply_entry fl lhs rhs (suc (suc zero)) (suc (suc (suc zero))) hr hc = refl
multiply_entry fl lhs rhs (suc (suc zero)) (suc (suc (suc (suc column)))) hr hc =
    absurd (omega arith)
multiply_entry fl lhs rhs (suc (suc (suc zero))) zero hr hc = refl
multiply_entry fl lhs rhs (suc (suc (suc zero))) (suc zero) hr hc = refl
multiply_entry fl lhs rhs (suc (suc (suc zero))) (suc (suc zero)) hr hc = refl
multiply_entry fl lhs rhs (suc (suc (suc zero))) (suc (suc (suc zero))) hr hc = refl
multiply_entry fl lhs rhs (suc (suc (suc zero))) (suc (suc (suc (suc column)))) hr hc =
    absurd (omega arith)
multiply_entry fl lhs rhs (suc (suc (suc (suc row)))) column hr hc = absurd (omega arith)

-- No entry of the pose and none of the intrinsics is a NaN.
pub record IsComparable (p : ViewerPose) : Type 0 where
  pub entries : All (λ x. is_nan x ≡ false) p.pose.matrix
  pub fx : is_nan p.intrinsics.fx ≡ false
  pub fy : is_nan p.intrinsics.fy ≡ false
  pub cx : is_nan p.intrinsics.cx ≡ false
  pub cy : is_nan p.intrinsics.cy ≡ false

eq_float_refl : (x : Float32) → is_nan x ≡ false → eq_float x x ≡ true
unfolding eq_float
eq_float_refl x h = ground arith

matrix_eq_refl : (xs : List Float32) → All (λ x. is_nan x ≡ false) xs → matrix_eq xs xs ≡ true
unfolding matrix_eq
matrix_eq_refl [] h = refl
matrix_eq_refl (x ∷ xs) h = ground (arith, eq_float_refl x, matrix_eq_refl xs h.1)

eq_ℤ_refl : (z : ℤ) → eq_ℤ z z ≡ true
eq_ℤ_refl (pos n) = ground arith
eq_ℤ_refl (negsuc n) = ground arith

same_pose_request_refl :
    (p : ViewerPose) (generation : ℕ)
    → IsComparable p
    → same_pose_request (record p { generation = generation }) p ≡ true
unfolding same_pose_request pose_eq size_eq
same_pose_request_refl p generation c = ground (
  arith,
  matrix_eq_refl p.pose.matrix c.entries,
  eq_float_refl p.intrinsics.fx,
  eq_float_refl p.intrinsics.fy,
  eq_float_refl p.intrinsics.cx,
  eq_float_refl p.intrinsics.cy,
  eq_ℤ_refl p.image_size.width,
  eq_ℤ_refl p.image_size.height,
)

-- Two lists of floats agree entry by entry.
abbrev pub Agree : List Float32 → List Float32 → Type 0
Agree [] [] = Unit
Agree [] (y ∷ ys) = ⊥
Agree (x ∷ xs) [] = ⊥
Agree (x ∷ xs) (y ∷ ys) = (eq_float x y ≡ true) × Agree xs ys

-- Two poses ask for the same rendering: they agree in all but the generation.
pub record SameRequest (a b : ViewerPose) : Type 0 where
  pub pose : Agree a.pose.matrix b.pose.matrix
  pub fx : eq_float a.intrinsics.fx b.intrinsics.fx ≡ true
  pub fy : eq_float a.intrinsics.fy b.intrinsics.fy ≡ true
  pub cx : eq_float a.intrinsics.cx b.intrinsics.cx ≡ true
  pub cy : eq_float a.intrinsics.cy b.intrinsics.cy ≡ true
  pub size : a.image_size ≡ b.image_size

matrix_eq-Agree : (xs ys : List Float32) → matrix_eq xs ys ≡ true → Agree xs ys
unfolding matrix_eq
matrix_eq-Agree [] [] e = tt
matrix_eq-Agree [] (y ∷ ys) e = ground (arith, e)
matrix_eq-Agree (x ∷ xs) [] e = ground (arith, e)
matrix_eq-Agree (x ∷ xs) (y ∷ ys) e = (ground (arith, e), matrix_eq-Agree xs ys (ground (arith, e)))

Agree-matrix_eq : (xs ys : List Float32) → Agree xs ys → matrix_eq xs ys ≡ true
unfolding matrix_eq
Agree-matrix_eq [] [] e = refl
Agree-matrix_eq [] (y ∷ ys) e = absurd e
Agree-matrix_eq (x ∷ xs) [] e = absurd e
Agree-matrix_eq (x ∷ xs) (y ∷ ys) e = ground (arith, e.0, Agree-matrix_eq xs ys e.1)

size_eq_self : (size : ImageSize) → size_eq size size ≡ true
unfolding size_eq
size_eq_self size = ground (arith, eq_ℤ_refl size.width, eq_ℤ_refl size.height)

same_pose_request-SameRequest : (a b : ViewerPose) → same_pose_request a b ≡ true → SameRequest a b
unfolding same_pose_request pose_eq
same_pose_request-SameRequest a b e = record {
  pose = matrix_eq-Agree a.pose.matrix b.pose.matrix (ground (arith, e));
  fx = ground (arith, e);
  fy = ground (arith, e);
  cx = ground (arith, e);
  cy = ground (arith, e);
  size = same_size a.image_size b.image_size (ground (arith, e));
}

SameRequest-same_pose_request : (a b : ViewerPose) → SameRequest a b → same_pose_request a b ≡ true
unfolding same_pose_request pose_eq
SameRequest-same_pose_request a b r =
    let p = Agree-matrix_eq a.pose.matrix b.pose.matrix r.pose in
    let z = subst (λ size. size_eq a.image_size size ≡ true) r.size (size_eq_self a.image_size) in
    rw (p, r.fx, r.fy, r.cx, r.cy) z

repeats-SameRequest :
    (found : Option ViewerPose) (b : ViewerPose)
    → repeats found b ≡ true
    → (p : ViewerPose) × (found ≡ some p) × SameRequest p b
repeats-SameRequest none b e = ground (arith, e)
repeats-SameRequest (some p) b e = (p, refl, same_pose_request-SameRequest p b e)

module _ (fl : FloatArith) (relative : Pose4f) (s : ViewerPoseStore) (baseline : ViewerPose) where
  abbrev pub moved : ViewerPose
  moved = record baseline { pose = multiply_row_major fl relative baseline.pose }

  -- The latest pose asks for the product already.
  abbrev pub IsRepeated : Type 0
  IsRepeated = (p : ViewerPose) × (s.latest_pose ≡ some p) × SameRequest p moved

  -- With a baseline, a relative pose that gives the product the latest pose asks for already changes
  -- nothing and gives no pose. Any other stores and gives the product with the baseline's pose, with
  -- the baseline's intrinsics and size, never with the latest one's, under a generation that is
  -- not older than the next; the baseline stays.
  pub apply_relative_pose_moves :
      s.relative_baseline_pose ≡ some baseline
      → (IsRepeated × (apply_relative_pose fl relative s ≡ (s, none)))
        ⊎ (¬ IsRepeated
            × ((q : ViewerPose) × (apply_relative_pose fl relative s ≡ (
              record s { next_generation = inc64 q.generation; latest_pose = some q },
              some q,
            ))
                × (s.next_generation ≤ q.generation)
                × (q ≡ record moved { generation = q.generation })))
  unfolding apply_relative_pose
  apply_relative_pose_moves h = elim (Bool-cases (repeats s.latest_pose moved)) [
    | inl same ↦ inl (repeats-SameRequest s.latest_pose moved same, ground arith)
    | inr other ↦ inr (
      λ (p, e, r). ground (arith, other, e, SameRequest-same_pose_request p moved r),
      (at_least s.next_generation moved, ground arith, ground arith, ground arith),
    )
  ]

  -- The same relative pose again changes nothing and gives no pose.
  pub apply_relative_pose_again :
      s.relative_baseline_pose ≡ some baseline
      → IsComparable moved
      → let t = (apply_relative_pose fl relative s).0 in
        apply_relative_pose fl relative t ≡ (t, none)
  unfolding apply_relative_pose
  apply_relative_pose_again h c = ground (
    arith,
    same_pose_request_refl moved s.next_generation c,
    same_pose_request_refl moved baseline.generation c,
  )
