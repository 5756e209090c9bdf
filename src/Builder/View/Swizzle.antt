-- ===== src/Builder/View/Swizzle.antt =====
-- The row loops of InfiniTamViewConverter.cpp against the pixel that stands at each column.
use edge_vision.Prelude.{
  ℕ, zero, suc, ◌+◌, ◌-◌, ◌*◌, ◌<◌, ◌≤◌, ◌≡◌, refl, sym, ap, ◌∙◌, arith, List, [], ◌∷◌, ◌++◌, none,
  some, length, leb, leb→le, Bool-cases, inl, inr, get_elem?,
}
use native.Mathlib.Nat.{zero-add, add-zero, suc-add}
use edge_vision.Model.Scene.{Pixel}
use edge_vision.Builder.View.{
  swizzle_pixel, swizzle_columns, lanes, interleave, swizzle_batch, swizzle_batches,
  swizzle_bgra_row_to_rgba, swizzle_bgra_row_to_rgba_scalar,
}

abbrev pub byte_at : List ℕ → ℕ → ℕ
byte_at bytes i = elim (get_elem? bytes i) [ none ↦ 0 | some x ↦ x ]

pub byte_present :
    (bytes : List ℕ) (i : ℕ) → i < length bytes → get_elem? bytes i ≡ some (byte_at bytes i)
byte_present [] i h = elim h [ ]
byte_present (x ∷ xs) zero h = refl
byte_present (x ∷ xs) (suc i) h = byte_present xs i (omega (arith, h))

-- The colour of the four bytes at an offset, blue first; it is opaque.
abbrev pub rgba_at : List ℕ → ℕ → Pixel
rgba_at bytes offset = record {
  r = byte_at bytes (offset + 2);
  g = byte_at bytes (offset + 1);
  b = byte_at bytes offset;
  a = 255;
}

-- The colours of `count` columns.
unfoldable pub rgba_row : List ℕ → ℕ → ℕ → List Pixel
rgba_row bytes offset zero = []
rgba_row bytes offset (suc count) = rgba_at bytes offset ∷ rgba_row bytes (offset + 4) count

swizzle_pixel-rgba_at :
    (row : List ℕ) (offset : ℕ)
    → offset + 2 < length row
    → swizzle_pixel row offset ≡ some (rgba_at row offset)
unfolding swizzle_pixel
swizzle_pixel-rgba_at row offset h =
    rw
      (
        byte_present row (offset + 2) h,
        byte_present row (offset + 1) (omega (arith, h)),
        byte_present row offset (omega (arith, h)),
      )
      refl

next_column : (column : ℕ) → (column + 1) * 4 ≡ column * 4 + 4
next_column column = omega arith

swizzle_columns-rgba_row :
    (remaining column : ℕ) (row : List ℕ)
    → (column + remaining) * 4 ≤ length row
    → swizzle_columns remaining column row ≡ some (rgba_row row (column * 4) remaining)
unfolding swizzle_columns rgba_row
swizzle_columns-rgba_row zero column row h = refl
swizzle_columns-rgba_row (suc remaining) column row h =
    rw
      (
        swizzle_pixel-rgba_at row (column * 4) (omega (arith, h)),
        swizzle_columns-rgba_row remaining (column + 1) row (omega (arith, h)),
        next_column column,
      )
      refl

unfoldable lane_bytes : List ℕ → ℕ → ℕ → List ℕ
lane_bytes bytes offset zero = []
lane_bytes bytes offset (suc count) = byte_at bytes offset ∷ lane_bytes bytes (offset + 4) count

lanes-lane_bytes :
    (count offset : ℕ) (row : List ℕ)
    → offset + count * 4 ≤ length row + 3
    → lanes count offset row ≡ some (lane_bytes row offset count)
unfolding lanes lane_bytes
lanes-lane_bytes zero offset row h = refl
lanes-lane_bytes (suc count) offset row h =
    rw
      (
        byte_present row offset (omega (arith, h)),
        lanes-lane_bytes count (offset + 4) row (omega (arith, h)),
      )
      refl

add_four : (offset k : ℕ) → offset + k + 4 ≡ offset + 4 + k
add_four offset k = omega arith

interleave-rgba_row :
    (count offset : ℕ) (row : List ℕ)
    → interleave
        (lane_bytes row (offset + 2) count)
        (lane_bytes row (offset + 1) count)
        (lane_bytes row offset count)
      ≡ rgba_row row offset count
unfolding interleave lane_bytes rgba_row
interleave-rgba_row zero offset row = refl
interleave-rgba_row (suc count) offset row =
    rw (add_four offset 2, add_four offset 1, interleave-rgba_row count (offset + 4) row) refl

swizzle_batch-rgba_row :
    (offset : ℕ) (row : List ℕ)
    → offset + 64 ≤ length row
    → swizzle_batch offset row ≡ some (rgba_row row offset 16)
unfolding swizzle_batch
swizzle_batch-rgba_row offset row h =
    rw
      (
        lanes-lane_bytes 16 offset row (omega (arith, h)),
        lanes-lane_bytes 16 (offset + 1) row (omega (arith, h)),
        lanes-lane_bytes 16 (offset + 2) row (omega (arith, h)),
        lanes-lane_bytes 16 (offset + 3) row (omega (arith, h)),
        interleave-rgba_row 16 offset row,
      )
      refl

four_more : (offset m : ℕ) → offset + 4 + m * 4 ≡ offset + suc m * 4
four_more offset m = omega arith

rgba_row-append :
    (m n offset : ℕ) (row : List ℕ)
    → rgba_row row offset (m + n) ≡ rgba_row row offset m ++ rgba_row row (offset + m * 4) n
unfolding rgba_row
rgba_row-append zero n offset row = rw (zero-add, add-zero) refl
rgba_row-append (suc m) n offset row =
    rw (suc-add, rgba_row-append m n (offset + 4) row, four_more offset m) refl

sixteen_columns : (column : ℕ) → (column + 16) * 4 ≡ column * 4 + 16 * 4
sixteen_columns column = omega arith

split_sixteen : (n : ℕ) → 16 ≤ n → 16 + (n - 16) ≡ n
split_sixteen n h = omega (arith, h)

swizzle_batches-rgba_row :
    (fuel remaining column : ℕ) (row : List ℕ)
    → (column + remaining) * 4 ≤ length row
    → swizzle_batches fuel remaining column row ≡ some (rgba_row row (column * 4) remaining)
unfolding swizzle_batches
swizzle_batches-rgba_row zero remaining column row h =
    swizzle_columns-rgba_row remaining column row h
swizzle_batches-rgba_row (suc fuel) remaining column row h = elim (Bool-cases (leb 16 remaining)) [
  | inl e ↦
      let enough = leb→le 16 remaining e in
      rw
        (
          e,
          swizzle_batch-rgba_row (column * 4) row (omega (arith, h, enough)),
          swizzle_batches-rgba_row fuel (remaining - 16) (column + 16) row
              (omega (arith, h, enough)),
          sixteen_columns column,
        )
        (ap some (
          sym (rgba_row-append 16 (remaining - 16) (column * 4) row)
          ∙ ap (rgba_row row (column * 4)) (split_sixteen remaining enough)))
  | inr e ↦ rw e (swizzle_columns-rgba_row remaining column row h)
]

-- On a row that has four bytes for each column, the loop over batches of 16 columns and the plain
-- loop both stay within the row, and write the same pixels: at each column the colour of its
-- four bytes, with red and blue exchanged and the alpha opaque.
pub swizzle_rows_agree :
    (row : List ℕ) (width : ℕ)
    → width * 4 ≤ length row
    → (swizzle_bgra_row_to_rgba row width ≡ some (rgba_row row 0 width))
      × (swizzle_bgra_row_to_rgba_scalar row width ≡ swizzle_bgra_row_to_rgba row width)
unfolding swizzle_bgra_row_to_rgba swizzle_bgra_row_to_rgba_scalar
swizzle_rows_agree row width h =
    let b = swizzle_batches-rgba_row width width 0 row (omega (arith, h)) in
    (b, swizzle_columns-rgba_row width 0 row (omega (arith, h)) ∙ sym b)
