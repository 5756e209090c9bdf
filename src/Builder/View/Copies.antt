-- ===== src/Builder/View/Copies.antt =====
-- copyFrameToView in InfiniTamViewConverter.cpp: what stands at each pixel, and that no read leaves the
-- frame's buffers.
use edge_vision.Prelude.{
  ℕ, zero, suc, ◌+◌, ◌-◌, ◌*◌, ◌<◌, ◌≤◌, ◌≡◌, refl, sym, ap, ◌∙◌, arith, List, [], ◌∷◌, ◌++◌,
  Option, none, some, length, drop, length-drop, length-append, get_elem?, pos,
}
use native.Mathlib.Nat.{zero-add, add-zero, suc-add}
use edge_vision.Model.Frame.{FrameImage}
use edge_vision.Model.Scene.{Pixel}
use edge_vision.Builder.View.{copy_rows, copy_rgb, swizzle_bgra_row_to_rgba}
use edge_vision.Builder.View.Swizzle.{byte_at, rgba_at, rgba_row, swizzle_rows_agree}

later_row : (k w c n : ℕ) → n ≡ w → suc k * w + c ≡ n + (k * w + c)
later_row k w c n e = omega (arith, e)

pub first_row : (w c : ℕ) → 0 * w + c ≡ c
first_row w c = omega arith

pub next_offset : (offset c : ℕ) → offset + 4 + c * 4 ≡ offset + suc c * 4
next_offset offset c = omega arith

pub add_assoc_left : (k i n : ℕ) → k + (i + n) ≡ k + i + n
add_assoc_left k i n = omega arith

pub row_after : (row k : ℕ) → row + 1 + k ≡ row + suc k
row_after row k = omega arith

module _ {A : Type 0} where
  -- What the rows of an image hold together.
  pub all_rows : (ℕ → List A) → ℕ → ℕ → List A
  all_rows f row zero = []
  all_rows f row (suc remaining) = f row ++ all_rows f (row + 1) remaining

  pub copy_rows-all_rows :
      (copy_row : List ℕ → Option (List A)) (f : ℕ → List A) (stride : ℕ) (bytes : List ℕ)
      (remaining row : ℕ)
      → ((i : ℕ) → i < row + remaining → copy_row (drop (i * stride) bytes) ≡ some (f i))
      → copy_rows copy_row remaining row stride bytes ≡ some (all_rows f row remaining)
  unfolding copy_rows all_rows
  copy_rows-all_rows copy_row f stride bytes zero row h = refl
  copy_rows-all_rows copy_row f stride bytes (suc remaining) row h =
      rw
        (
          h row (omega arith),
          copy_rows-all_rows copy_row f stride bytes remaining (row + 1)
              (λ i b. h i (omega (arith, b))),
        )
        refl

  get_elem?-append_left :
      (xs ys : List A) (i : ℕ) → i < length xs → get_elem? (xs ++ ys) i ≡ get_elem? xs i
  get_elem?-append_left [] ys i h = elim h [ ]
  get_elem?-append_left (x ∷ xs) ys zero h = refl
  get_elem?-append_left (x ∷ xs) ys (suc i) h = get_elem?-append_left xs ys i (omega (arith, h))

  get_elem?-append_right :
      (xs ys : List A) (i : ℕ) → get_elem? (xs ++ ys) (length xs + i) ≡ get_elem? ys i
  get_elem?-append_right [] ys i = rw zero-add refl
  get_elem?-append_right (x ∷ xs) ys i = rw suc-add (get_elem?-append_right xs ys i)

  pub all_rows_elem :
      (f : ℕ → List A) (w : ℕ) (width : (i : ℕ) → length (f i) ≡ w) (remaining row k c : ℕ)
      → k < remaining
      → c < w
      → get_elem? (all_rows f row remaining) (k * w + c) ≡ get_elem? (f (row + k)) c
  unfolding all_rows
  all_rows_elem f w width zero row k c h b = elim h [ ]
  all_rows_elem f w width (suc remaining) row zero c h b =
      ap (get_elem? (f row ++ all_rows f (row + 1) remaining)) (first_row w c)
      ∙ get_elem?-append_left (f row) (all_rows f (row + 1) remaining) c
          (omega (arith, width row, b))
      ∙ ap (λ i. get_elem? (f i) c) (sym (add-zero row))
  all_rows_elem f w width (suc remaining) row (suc k) c h b =
      ap (get_elem? (f row ++ all_rows f (row + 1) remaining))
        (later_row k w c (length (f row)) (width row))
      ∙ get_elem?-append_right (f row) (all_rows f (row + 1) remaining) (k * w + c)
      ∙ all_rows_elem f w width remaining (row + 1) k c (omega (arith, h)) b
      ∙ ap (λ i. get_elem? (f i) c) (row_after row k)

  pub length-all_rows :
      (f : ℕ → List A) (w : ℕ) (width : (i : ℕ) → length (f i) ≡ w) (remaining row : ℕ)
      → length (all_rows f row remaining) ≡ remaining * w
  unfolding all_rows
  length-all_rows f w width zero row = omega arith
  length-all_rows f w width (suc remaining) row = omega (
    arith,
    length-append (f row) (all_rows f (row + 1) remaining),
    width row,
    length-all_rows f w width remaining (row + 1),
  )

length-rgba_row : (bytes : List ℕ) (offset n : ℕ) → length (rgba_row bytes offset n) ≡ n
unfolding rgba_row
length-rgba_row bytes offset zero = refl
length-rgba_row bytes offset (suc n) = ap suc (length-rgba_row bytes (offset + 4) n)

get_elem?-drop : (bytes : List ℕ) (k i : ℕ) → get_elem? (drop k bytes) i ≡ get_elem? bytes (k + i)
get_elem?-drop bytes zero i = rw zero-add refl
get_elem?-drop [] (suc k) i = refl
get_elem?-drop (x ∷ xs) (suc k) i = rw suc-add (get_elem?-drop xs k i)

rgba_row_elem :
    (bytes : List ℕ) (offset n c : ℕ)
    → c < n
    → get_elem? (rgba_row bytes offset n) c ≡ some (rgba_at bytes (offset + c * 4))
unfolding rgba_row
rgba_row_elem bytes offset zero c h = elim h [ ]
rgba_row_elem bytes offset (suc n) zero h = ap (λ k. some (rgba_at bytes k)) (sym (add-zero offset))
rgba_row_elem bytes offset (suc n) (suc c) h =
    rgba_row_elem bytes (offset + 4) n c (omega (arith, h))
    ∙ ap (λ k. some (rgba_at bytes k)) (next_offset offset c)

pub byte_at-drop : (bytes : List ℕ) (k i : ℕ) → byte_at (drop k bytes) i ≡ byte_at bytes (k + i)
byte_at-drop bytes k i = ap (λ x. elim x [ none ↦ 0 | some y ↦ y ]) (get_elem?-drop bytes k i)

rgba_at-drop : (bytes : List ℕ) (k i : ℕ) → rgba_at (drop k bytes) i ≡ rgba_at bytes (k + i)
rgba_at-drop bytes k i =
    rw
      (
        byte_at-drop bytes k (i + 2),
        byte_at-drop bytes k (i + 1),
        byte_at-drop bytes k i,
        add_assoc_left k i 2,
        add_assoc_left k i 1,
      )
      refl

-- The last row that is read ends within the buffer.
pub row_fits :
    (row stride width height total : ℕ)
    → row < height
    → width ≤ stride
    → stride * height ≤ total
    → width ≤ total - row * stride
row_fits row stride width height total h w t = grind (arith, h, w, t)

rgba_row-drop :
    (bytes : List ℕ) (k offset n : ℕ)
    → rgba_row (drop k bytes) offset n ≡ rgba_row bytes (k + offset) n
unfolding rgba_row
rgba_row-drop bytes k offset zero = refl
rgba_row-drop bytes k offset (suc n) =
    rw
      (rgba_at-drop bytes k offset, rgba_row-drop bytes k (offset + 4) n, add_assoc_left k offset 4)
      refl

rgba_copied :
    (bytes : List ℕ) (stride width height row : ℕ)
    → row < height
    → width * 4 ≤ stride
    → stride * height ≤ length bytes
    → swizzle_bgra_row_to_rgba (drop (row * stride) bytes) width
      ≡ some (rgba_row bytes (row * stride) width)
rgba_copied bytes stride width height row h w t =
    let fits = row_fits row stride (width * 4) height (length bytes) h w t in
    (swizzle_rows_agree (drop (row * stride) bytes) width
      (omega (arith, length-drop (row * stride) bytes, fits))).0
    ∙ ap some (rgba_row-drop bytes (row * stride) 0 width)
    ∙ ap (λ k. some (rgba_row bytes k width)) (add-zero (row * stride))

-- The colours of a frame's rows.
rgb_rows-elem :
    (bytes : List ℕ) (stride width height r c : ℕ)
    → r < height
    → c < width
    → get_elem? (all_rows (λ i. rgba_row bytes (i * stride) width) 0 height) (r * width + c)
      ≡ some (rgba_at bytes (r * stride + c * 4))
rgb_rows-elem bytes stride width height r c h b =
    all_rows_elem (λ i. rgba_row bytes (i * stride) width) width
      (λ i. length-rgba_row bytes (i * stride) width) height 0 r c h b
    ∙ ap (λ i. get_elem? (rgba_row bytes (i * stride) width) c) (zero-add r)
    ∙ rgba_row_elem bytes (r * stride) width c b

-- An image of the given rows, with what the bytes of its buffer are, whose rows are `unit` bytes
-- a column at least.
pub record Readable (image : FrameImage) (unit : ℕ) : Type 0 where
  pub bytes : List ℕ
  pub width : ℕ
  pub height : ℕ
  pub stride : ℕ
  pub has_bytes : image.buffer.bytes ≡ some bytes
  pub has_size : image.size ≡ record { width = pos width; height = pos height }
  pub has_stride : image.stride_bytes ≡ pos stride
  pub row_fits : width * unit ≤ stride
  pub rows_fit : stride * height ≤ length bytes

pub copy_rgb_reads :
    (image : FrameImage) (k : Readable image 4) (r c : ℕ)
    → r < k.height
    → c < k.width
    → (ps : List Pixel) × (copy_rgb image ≡ some ps)
      × (length ps ≡ k.height * k.width)
      × (get_elem? ps (r * k.width + c) ≡ some (rgba_at k.bytes (r * k.stride + c * 4)))
unfolding copy_rgb
copy_rgb_reads image k r c h b =
    let f : ℕ → List Pixel = λ i. rgba_row k.bytes (i * k.stride) k.width in
    (
      all_rows f 0 k.height,
      rw (k.has_bytes, k.has_size, k.has_stride)
          (copy_rows-all_rows (λ row. swizzle_bgra_row_to_rgba row k.width) f k.stride k.bytes
            k.height 0
            (λ i l.
              rgba_copied k.bytes k.stride k.width k.height i (omega (arith, l)) k.row_fits
                k.rows_fit)),
      length-all_rows f k.width (λ i. length-rgba_row k.bytes (i * k.stride) k.width) k.height 0,
      rgb_rows-elem k.bytes k.stride k.width k.height r c h b,
    )
