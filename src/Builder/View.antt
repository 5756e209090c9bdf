-- ===== src/Builder/View.antt =====
-- The copy of a frame into InfiniTAM's images: src/builder/src/utils/InfiniTamViewConverter.cpp. A read
-- outside the source, which C++ leaves undefined, is `none`. The destination is written once at every
-- index, in order, so it is the list of what is written.
pub mod Swizzle
pub mod Copies
pub mod Depths
pub mod Safety
use edge_vision.Prelude.{
  ℕ, zero, suc, ◌>>=◌, ◌+◌, ◌-◌, ◌*◌, List, [], ◌∷◌, ◌++◌, Option, none, some, leb, drop, get_elem?,
  map, ℤ, pos, to_u64, Float32, if◌then◌else◌,
}
use edge_vision.Model.Frame.{FrameImage}
use edge_vision.Model.Scene.{Pixel}

-- The body of the loop over the columns that are left over.
unfoldable pub swizzle_pixel : List ℕ → ℕ → Option Pixel
swizzle_pixel row offset = do
  r ← get_elem? row (offset + 2)
  g ← get_elem? row (offset + 1)
  b ← get_elem? row offset
  some (record { r = r; g = g; b = b; a = 255 })

-- The loop without the batches, from a column on; `remaining` is width - column.
unfoldable pub swizzle_columns : ℕ → ℕ → List ℕ → Option (List Pixel)
swizzle_columns zero column row = some []
swizzle_columns (suc remaining) column row = do
  p ← swizzle_pixel row (column * 4)
  ps ← swizzle_columns remaining (column + 1) row
  some (p ∷ ps)

-- One of the four vectors that vld4q_u8 loads: every fourth byte, from `offset` on.
unfoldable pub lanes : ℕ → ℕ → List ℕ → Option (List ℕ)
lanes zero offset row = some []
lanes (suc count) offset row = do
  x ← get_elem? row offset
  xs ← lanes count (offset + 4) row
  some (x ∷ xs)

-- vst4q_u8 of four vectors, of which the last is 0xFF throughout.
unfoldable pub interleave : List ℕ → List ℕ → List ℕ → List Pixel
interleave (r ∷ rs) (g ∷ gs) (b ∷ bs) =
    record { r = r; g = g; b = b; a = 255 } ∷ interleave rs gs bs
interleave _ _ _ = []

abbrev pub append_found : Option (List Pixel) → Option (List Pixel) → Option (List Pixel)
append_found found rest = do ps ← found; qs ← rest; some (ps ++ qs)

-- A round of the loop over the batches: the blue and the red vector change places.
unfoldable pub swizzle_batch : ℕ → List ℕ → Option (List Pixel)
swizzle_batch offset row = do
  b ← lanes 16 offset row
  g ← lanes 16 (offset + 1) row
  r ← lanes 16 (offset + 2) row
  a ← lanes 16 (offset + 3) row
  some (interleave r g b)

-- The loop over batches of 16 columns, then the rest; `fuel` rounds are enough when it is as much as
-- `remaining`, the columns that are left.
unfoldable pub swizzle_batches : ℕ → ℕ → ℕ → List ℕ → Option (List Pixel)
unfolding swizzle_columns
swizzle_batches zero remaining column row = swizzle_columns remaining column row
swizzle_batches (suc fuel) remaining column row =
    let rest = swizzle_batches fuel (remaining - 16) (column + 16) row in
    if leb 16 remaining
    then append_found (swizzle_batch (column * 4) row) rest
    else swizzle_columns remaining column row

-- swizzleBgraRowToRgba, on a machine with Neon and on one without.
unfoldable pub swizzle_bgra_row_to_rgba : List ℕ → ℕ → Option (List Pixel)
swizzle_bgra_row_to_rgba row width = swizzle_batches width width 0 row

unfoldable pub swizzle_bgra_row_to_rgba_scalar : List ℕ → ℕ → Option (List Pixel)
swizzle_bgra_row_to_rgba_scalar row width = swizzle_columns width 0 row

-- A row of depths: 16-bit little-endian numbers, in metres.
unfoldable pub depth_columns : (ℕ → Float32) → ℕ → ℕ → List ℕ → Option (List Float32)
depth_columns metres zero column row = some []
depth_columns metres (suc remaining) column row = do
  low ← get_elem? row (column * 2)
  high ← get_elem? row (column * 2 + 1)
  ds ← depth_columns metres remaining (column + 1) row
  some (metres (low + 256 * high) ∷ ds)

module _ {A : Type 0} where
  -- The loop over the rows, which start `stride` bytes apart; `remaining` is height - row.
  unfoldable pub copy_rows : (List ℕ → Option (List A)) → ℕ → ℕ → ℕ → List ℕ → Option (List A)
  copy_rows copy_row zero row stride bytes = some []
  copy_rows copy_row (suc remaining) row stride bytes = do
    xs ← copy_row (drop (row * stride) bytes)
    ys ← copy_rows copy_row remaining (row + 1) stride bytes
    some (xs ++ ys)

-- The loops do not run for a size that is not positive.
abbrev pub bound : ℤ → ℕ
bound (pos n) = n
bound _ = 0

unfoldable pub copy_rgb : FrameImage → Option (List Pixel)
unfolding copy_rows swizzle_bgra_row_to_rgba
copy_rgb image = do
  bytes ← image.buffer.bytes
  copy_rows (λ row. swizzle_bgra_row_to_rgba row (bound image.size.width)) (bound image.size.height)
      0 (to_u64 image.stride_bytes) bytes

unfoldable pub copy_depth : (ℕ → Float32) → FrameImage → Option (List Float32)
unfolding copy_rows depth_columns
copy_depth metres image = do
  bytes ← image.buffer.bytes
  copy_rows (λ row. depth_columns metres (bound image.size.width) 0 row) (bound image.size.height) 0
      (to_u64 image.stride_bytes) bytes
