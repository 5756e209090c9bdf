-- ===== src/Viewer/Pipeline/Packing.antt =====
-- The loop of makeRgbBuffer in InfiniTamViewerPipeline.cpp, against the list of the pixels' bytes.
use edge_vision.Prelude.{
  ℕ, suc, ◌+◌, ◌*◌, ◌%◌, ◌<◌, ◌≡◌, refl, ap, ◌∙◌, sym, true, arith, List, [], ◌∷◌, ◌++◌, some,
  length, length-append, get_elem?, u64_mod,
}
use native.Mathlib.Nat.{zero-add, suc-add}
use edge_vision.Config.{ImageSize}
use edge_vision.Model.Scene.{Pixel}
use edge_vision.Viewer.Pipeline.{
  pixel_at, write, write_pixel, pixel_loop, zero_bytes, pixel_count, make_rgb_buffer,
}

-- The red, green and blue byte of each pixel, in order.
unfoldable pub rgb_bytes : List Pixel → List ℕ
rgb_bytes [] = []
rgb_bytes (p ∷ ps) = p.r ∷ p.g ∷ p.b ∷ rgb_bytes ps

pub length-rgb_bytes : (ps : List Pixel) → length (rgb_bytes ps) ≡ length ps * 3
unfolding rgb_bytes
length-rgb_bytes [] = refl
length-rgb_bytes (p ∷ ps) = omega (arith, length-rgb_bytes ps)

rgb_bytes-append : (ps qs : List Pixel) → rgb_bytes (ps ++ qs) ≡ rgb_bytes ps ++ rgb_bytes qs
unfolding rgb_bytes
rgb_bytes-append [] qs = refl
rgb_bytes-append (p ∷ ps) qs = rw (rgb_bytes-append ps qs)

get_elem?-middle :
    (ps : List Pixel) (p : Pixel) (qs : List Pixel) → get_elem? (ps ++ p ∷ qs) (length ps) ≡ some p
get_elem?-middle [] p qs = refl
get_elem?-middle (q ∷ ps) p qs = get_elem?-middle ps p qs

append_assoc : (xs ys zs : List ℕ) → (xs ++ ys) ++ zs ≡ xs ++ (ys ++ zs)
append_assoc [] ys zs = refl
append_assoc (x ∷ xs) ys zs = rw (append_assoc xs ys zs)

append_assoc_pixels : (xs ys zs : List Pixel) → (xs ++ ys) ++ zs ≡ xs ++ (ys ++ zs)
append_assoc_pixels [] ys zs = refl
append_assoc_pixels (x ∷ xs) ys zs = rw (append_assoc_pixels xs ys zs)

write_past :
    (k byte : ℕ) (xs ys : List ℕ) → write (length xs + k) byte (xs ++ ys) ≡ xs ++ write k byte ys
write_past k byte [] ys = rw zero-add
write_past k byte (x ∷ xs) ys = rw (suc-add, write_past k byte xs ys)

write_at :
    (k n byte : ℕ) (xs ys : List ℕ)
    → n ≡ length xs + k
    → write n byte (xs ++ ys) ≡ xs ++ write k byte ys
write_at k n byte xs ys e = rw e (write_past k byte xs ys)

write_three :
    (n r g b : ℕ) (xs ys : List ℕ)
    → length xs ≡ n * 3
    → write (n * 3 + 2) b (write (n * 3 + 1) g (write (n * 3) r (xs ++ 0 ∷ 0 ∷ 0 ∷ ys)))
      ≡ xs ++ r ∷ g ∷ b ∷ ys
write_three n r g b xs ys e =
    ap (λ s. write (n * 3 + 2) b (write (n * 3 + 1) g s))
      (write_at 0 (n * 3) r xs (0 ∷ 0 ∷ 0 ∷ ys) (omega arith))
    ∙ ap (write (n * 3 + 2) b) (write_at 1 (n * 3 + 1) g xs (r ∷ 0 ∷ 0 ∷ ys) (omega arith))
    ∙ write_at 2 (n * 3 + 2) b xs (r ∷ g ∷ 0 ∷ ys) (omega arith)

suc_times_three : (n : ℕ) → suc n * 3 ≡ suc (suc (suc (n * 3)))
suc_times_three n = omega arith

zero_bytes_three : (n : ℕ) → zero_bytes (suc n * 3) ≡ 0 ∷ 0 ∷ 0 ∷ zero_bytes (n * 3)
zero_bytes_three n = ap zero_bytes (suc_times_three n)

pixel_at-some :
    (source : List Pixel) (index : ℕ) (p : Pixel)
    → get_elem? source index ≡ some p
    → pixel_at source index ≡ p
pixel_at-some source index p e = ground (arith, e)

write_pixel_of :
    (source : List Pixel) (index : ℕ) (p : Pixel) (storage : List ℕ)
    → get_elem? source index ≡ some p
    → write_pixel source index storage
      ≡ write (index * 3 + 2) p.b (write (index * 3 + 1) p.g (write (index * 3) p.r storage))
unfolding write_pixel
write_pixel_of source index p storage e =
    ap (λ q. write (index * 3 + 2) q.b (write (index * 3 + 1) q.g (write (index * 3) q.r storage)))
      (pixel_at-some source index p e)

write_pixel_next :
    (ps : List Pixel) (q : Pixel) (qs : List Pixel) (n : ℕ)
    → write_pixel (ps ++ q ∷ qs) (length ps) (rgb_bytes ps ++ zero_bytes (suc n * 3))
      ≡ rgb_bytes (ps ++ q ∷ []) ++ zero_bytes (n * 3)
unfolding rgb_bytes
write_pixel_next ps q qs n =
    write_pixel_of (ps ++ q ∷ qs) (length ps) q (rgb_bytes ps ++ zero_bytes (suc n * 3))
      (get_elem?-middle ps q qs)
    ∙ rw (zero_bytes_three n) (
        write_three (length ps) q.r q.g q.b (rgb_bytes ps) (zero_bytes (n * 3))
          (length-rgb_bytes ps))
    ∙ sym (
        ap (λ xs. xs ++ zero_bytes (n * 3)) (rgb_bytes-append ps (q ∷ []))
        ∙ append_assoc (rgb_bytes ps) (rgb_bytes (q ∷ [])) (zero_bytes (n * 3)))

-- The loop with the pixels `ps` behind it and `qs` ahead.
pixel_loop-rgb_bytes :
    (ps qs source : List Pixel) (index : ℕ)
    → ps ++ qs ≡ source
    → index ≡ length ps
    → pixel_loop (length qs) index source (rgb_bytes ps ++ zero_bytes (length qs * 3))
      ≡ rgb_bytes source
unfolding pixel_loop rgb_bytes
pixel_loop-rgb_bytes ps [] source index e i = sym (rgb_bytes-append ps []) ∙ ap rgb_bytes e
pixel_loop-rgb_bytes ps (q ∷ qs) source index e i =
    ap (λ s. pixel_loop (length qs) (index + 1) source s)
      (rw (i, sym e) (write_pixel_next ps q qs (length qs)))
    ∙ pixel_loop-rgb_bytes (ps ++ q ∷ []) qs source (index + 1)
        (append_assoc_pixels ps (q ∷ []) qs ∙ e) (omega (arith, i, length-append ps (q ∷ [])))

zeros_exact : (n : ℕ) → n * 3 < u64_mod → n * 3 % u64_mod ≡ n * 3
zeros_exact n h = omega (arith, h)

all_pixels :
    (count : ℕ) (source : List Pixel)
    → count ≡ length source
    → length source * 3 < u64_mod
    → pixel_loop count 0 source (zero_bytes (count * 3 % u64_mod)) ≡ rgb_bytes source
unfolding rgb_bytes
all_pixels count source e h =
    ap (λ c. pixel_loop c 0 source (zero_bytes (c * 3 % u64_mod))) e
    ∙ ap (λ z. pixel_loop (length source) 0 source (zero_bytes z)) (zeros_exact (length source) h)
    ∙ pixel_loop-rgb_bytes [] source source 0 refl refl

-- The buffer of an image that has all its pixels holds their red, green and blue bytes, and is three
-- bytes a pixel long.
pub make_rgb_buffer-rgb_bytes :
    (size : ImageSize) (source : List Pixel)
    → pixel_count size ≡ length source
    → length source * 3 < u64_mod
    → make_rgb_buffer size source
      ≡ record { bytes = some (rgb_bytes source); byte_count = length source * 3; owned = true }
unfolding make_rgb_buffer
make_rgb_buffer-rgb_bytes size source e h =
    ap (λ bs. record { bytes = some bs; byte_count = length bs; owned = true })
      (all_pixels (pixel_count size) source e h)
    ∙ ap (λ n. record { bytes = some (rgb_bytes source); byte_count = n; owned = true })
        (length-rgb_bytes source)
