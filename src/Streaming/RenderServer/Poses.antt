-- ===== src/Streaming/RenderServer/Poses.antt =====
-- The pose of a request in RenderServer.cpp, from OpenGL's convention to OpenCV's.
use edge_vision.Prelude.{
  ℕ, zero, suc, ◌+◌, ◌*◌, ◌<◌, ◌≡◌, refl, arith, ◌||◌, List, ◌==◌, Float32, if◌then◌else◌,
}
use edge_vision.Model.Viewer.PoseStore.{entry}
use edge_vision.Streaming.{FloatMath}
use edge_vision.Streaming.RenderServer.{convert_pose, columns_negated, transposed, minus_one}

-- The entry in row r and column c.
abbrev pub converted_entry : FloatMath → List Float32 → ℕ → ℕ → Float32
converted_entry fl values r c =
    if c == 1 || c == 2
    then fl.mul (entry values (r * 4 + c)) minus_one
    else entry values (r * 4 + c)

-- The pose of a request is that on the wire with the second and the third column negated: the two
-- transpositions around the negation cancel.
pub convert_pose-entry :
    (fl : FloatMath) (values : List Float32) (r c : ℕ)
    → r < 4
    → c < 4
    → entry (convert_pose fl values) (r * 4 + c) ≡ converted_entry fl values r c
unfolding convert_pose transposed columns_negated
convert_pose-entry fl values zero zero h b = refl
convert_pose-entry fl values zero (suc zero) h b = refl
convert_pose-entry fl values zero (suc (suc zero)) h b = refl
convert_pose-entry fl values zero (suc (suc (suc zero))) h b = refl
convert_pose-entry fl values zero (suc (suc (suc (suc c)))) h b = omega (arith, b)
convert_pose-entry fl values (suc zero) zero h b = refl
convert_pose-entry fl values (suc zero) (suc zero) h b = refl
convert_pose-entry fl values (suc zero) (suc (suc zero)) h b = refl
convert_pose-entry fl values (suc zero) (suc (suc (suc zero))) h b = refl
convert_pose-entry fl values (suc zero) (suc (suc (suc (suc c)))) h b = omega (arith, b)
convert_pose-entry fl values (suc (suc zero)) zero h b = refl
convert_pose-entry fl values (suc (suc zero)) (suc zero) h b = refl
convert_pose-entry fl values (suc (suc zero)) (suc (suc zero)) h b = refl
convert_pose-entry fl values (suc (suc zero)) (suc (suc (suc zero))) h b = refl
convert_pose-entry fl values (suc (suc zero)) (suc (suc (suc (suc c)))) h b = omega (arith, b)
convert_pose-entry fl values (suc (suc (suc zero))) zero h b = refl
convert_pose-entry fl values (suc (suc (suc zero))) (suc zero) h b = refl
convert_pose-entry fl values (suc (suc (suc zero))) (suc (suc zero)) h b = refl
convert_pose-entry fl values (suc (suc (suc zero))) (suc (suc (suc zero))) h b = refl
convert_pose-entry fl values (suc (suc (suc zero))) (suc (suc (suc (suc c)))) h b = omega (arith, b)
convert_pose-entry fl values (suc (suc (suc (suc r)))) c h b = omega (arith, h)
