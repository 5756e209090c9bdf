-- ===== src/Builder/View/Depths.antt =====
-- The depths that copyFrameToView in InfiniTamViewConverter.cpp writes.
use edge_vision.Prelude.{
  ℕ, zero, suc, ◌+◌, ◌*◌, ◌<◌, ◌≤◌, ◌≡◌, refl, sym, ap, ◌∙◌, arith, List, [], ◌∷◌, some, length,
  drop, length-drop, get_elem?, Float32,
}
use native.Mathlib.Nat.{zero-add, add-zero}
use edge_vision.Model.Frame.{FrameImage}
use edge_vision.Builder.View.{copy_depth, depth_columns}
use edge_vision.Builder.View.Swizzle.{byte_at, byte_present}
use edge_vision.Builder.View.Copies.{
  Readable, all_rows, copy_rows-all_rows, all_rows_elem, length-all_rows, byte_at-drop, row_fits,
  add_assoc_left,
}

-- A depth, from two bytes, low first.
abbrev pub depth_at : (ℕ → Float32) → List ℕ → ℕ → Float32
depth_at metres bytes offset = metres (byte_at bytes offset + 256 * byte_at bytes (offset + 1))

unfoldable depth_row : (ℕ → Float32) → List ℕ → ℕ → ℕ → List Float32
depth_row metres bytes offset zero = []
depth_row metres bytes offset (suc n) =
    depth_at metres bytes offset ∷ depth_row metres bytes (offset + 2) n

next_depth : (column : ℕ) → (column + 1) * 2 ≡ column * 2 + 2
next_depth column = omega arith

depth_columns-depth_row :
    (metres : ℕ → Float32) (remaining column : ℕ) (row : List ℕ)
    → (column + remaining) * 2 ≤ length row
    → depth_columns metres remaining column row ≡ some (depth_row metres row (column * 2) remaining)
unfolding depth_columns depth_row
depth_columns-depth_row metres zero column row h = refl
depth_columns-depth_row metres (suc remaining) column row h =
    rw
      (
        byte_present row (column * 2) (omega (arith, h)),
        byte_present row (column * 2 + 1) (omega (arith, h)),
        depth_columns-depth_row metres remaining (column + 1) row (omega (arith, h)),
        next_depth column,
      )
      refl

length-depth_row :
    (metres : ℕ → Float32) (bytes : List ℕ) (offset n : ℕ)
    → length (depth_row metres bytes offset n) ≡ n
unfolding depth_row
length-depth_row metres bytes offset zero = refl
length-depth_row metres bytes offset (suc n) = ap suc (length-depth_row metres bytes (offset + 2) n)

next_depth_offset : (offset c : ℕ) → offset + 2 + c * 2 ≡ offset + suc c * 2
next_depth_offset offset c = omega arith

depth_row_elem :
    (metres : ℕ → Float32) (bytes : List ℕ) (offset n c : ℕ)
    → c < n
    → get_elem? (depth_row metres bytes offset n) c ≡ some (depth_at metres bytes (offset + c * 2))
unfolding depth_row
depth_row_elem metres bytes offset zero c h = elim h [ ]
depth_row_elem metres bytes offset (suc n) zero h =
    ap (λ k. some (depth_at metres bytes k)) (sym (add-zero offset))
depth_row_elem metres bytes offset (suc n) (suc c) h =
    depth_row_elem metres bytes (offset + 2) n c (omega (arith, h))
    ∙ ap (λ k. some (depth_at metres bytes k)) (next_depth_offset offset c)

depth_row-drop :
    (metres : ℕ → Float32) (bytes : List ℕ) (k offset n : ℕ)
    → depth_row metres (drop k bytes) offset n ≡ depth_row metres bytes (k + offset) n
unfolding depth_row
depth_row-drop metres bytes k offset zero = refl
depth_row-drop metres bytes k offset (suc n) =
    rw
      (
        byte_at-drop bytes k offset,
        byte_at-drop bytes k (offset + 1),
        depth_row-drop metres bytes k (offset + 2) n,
        add_assoc_left k offset 1,
        add_assoc_left k offset 2,
      )
      refl

depth_copied :
    (metres : ℕ → Float32) (bytes : List ℕ) (stride width height row : ℕ)
    → row < height
    → width * 2 ≤ stride
    → stride * height ≤ length bytes
    → depth_columns metres width 0 (drop (row * stride) bytes)
      ≡ some (depth_row metres bytes (row * stride) width)
depth_copied metres bytes stride width height row h w t =
    let fits = row_fits row stride (width * 2) height (length bytes) h w t in
    depth_columns-depth_row metres width 0 (drop (row * stride) bytes)
      (omega (arith, length-drop (row * stride) bytes, fits))
    ∙ ap some (depth_row-drop metres bytes (row * stride) 0 width)
    ∙ ap (λ k. some (depth_row metres bytes k width)) (add-zero (row * stride))

pub copy_depth_reads :
    (metres : ℕ → Float32) (image : FrameImage) (k : Readable image 2) (r c : ℕ)
    → r < k.height
    → c < k.width
    → (ds : List Float32) × (copy_depth metres image ≡ some ds)
      × (length ds ≡ k.height * k.width)
      × (get_elem? ds (r * k.width + c) ≡ some (depth_at metres k.bytes (r * k.stride + c * 2)))
unfolding copy_depth
copy_depth_reads metres image k r c h b =
    let f : ℕ → List Float32 = λ i. depth_row metres k.bytes (i * k.stride) k.width in
    let width : (i : ℕ) → length (f i) ≡ k.width =
      λ i. length-depth_row metres k.bytes (i * k.stride) k.width in
    (
      all_rows f 0 k.height,
      rw (k.has_bytes, k.has_size, k.has_stride)
          (copy_rows-all_rows (λ row. depth_columns metres k.width 0 row) f k.stride k.bytes
            k.height 0
            (λ i l.
              depth_copied metres k.bytes k.stride k.width k.height i (omega (arith, l)) k.row_fits
                k.rows_fit)),
      length-all_rows f k.width width k.height 0,
      all_rows_elem f k.width width k.height 0 r c h b
          ∙ ap (λ i. get_elem? (f i) c) (zero-add r)
          ∙ depth_row_elem metres k.bytes (r * k.stride) k.width c b,
    )
