-- ===== src/Streaming/RenderServer/Reading.antt =====
-- What readExact in RenderServer.cpp reads.
use edge_vision.Prelude.{
  ℕ, zero, suc, ◌-◌, ◌≤◌, ◌<◌, ◌≡◌, subst, refl, sym, ap, ◌∙◌, arith, true, List, [], ◌∷◌, ◌++◌,
  none, length, length-append, ◌==◌, Bool-cases, Option-cases, inl, inr,
}
use edge_vision.Model.Scene.Shared.{Result, ok, throws}
use edge_vision.Streaming.{Socket}
use edge_vision.Streaming.RenderServer.{prepend, read_loop, read_exact}

append_assoc : (xs ys zs : List ℕ) → (xs ++ ys) ++ zs ≡ xs ++ (ys ++ zs)
append_assoc [] ys zs = refl
append_assoc (x ∷ xs) ys zs = rw (append_assoc xs ys zs)

zero_test : (n : ℕ) → n ≤ 0 → (n == 0) ≡ true
zero_test n h = ground (arith, h)

still_missing : (len : ℕ) (xs ys : List ℕ) → len - length xs - length ys ≡ len - length (xs ++ ys)
still_missing len xs ys = omega (arith, length-append xs ys)

all_missing : (len : ℕ) → len ≡ len - length {A = ℕ} []
all_missing len = omega arith

module _ {K : Type 0} ⦃net : Socket K⦄ where
  -- The next bytes of the stream, exactly as many as asked; or, when fewer bytes came, the read for all
  -- that were missing gave none.
  abbrev pub Reads : ℕ → K → Result (List ℕ × K) → Type 0
  Reads len k (throws message) =
      (message ≡ "read: peer closed")
      × ((got : List ℕ) × (j : K) × (length got < len)
          × (net.incoming k ≡ got ++ net.incoming j)
          × ((net.read (len - length got) j).0 ≡ none))
  Reads len k (ok (bytes, j)) = (length bytes ≡ len) × (net.incoming k ≡ bytes ++ net.incoming j)

  prepend-Reads :
      (len : ℕ) (k j : K) (bytes : List ℕ) (r : Result (List ℕ × K))
      → net.incoming k ≡ bytes ++ net.incoming j
      → length bytes ≤ len
      → Reads (len - length bytes) j r
      → Reads len k (prepend bytes r)
  prepend-Reads len k j bytes (throws message) e b (m, (got, i, s, n, f)) = (
    m,
    (
      bytes ++ got,
      i,
      omega (arith, length-append bytes got, s, b),
      e ∙ ap (λ xs. bytes ++ xs) n ∙ sym (append_assoc bytes got (net.incoming i)),
      subst (λ k. (net.read k i).0 ≡ none) (still_missing len bytes got) f,
    ),
  )
  prepend-Reads len k j bytes (ok (rest, i)) e b h = (
    omega (arith, length-append bytes rest, h.0, b),
    e ∙ ap (λ xs. bytes ++ xs) h.1 ∙ sym (append_assoc bytes rest (net.incoming i)),
  )

  nothing_left : (len : ℕ) (k : K) → (len == 0) ≡ true → Reads len k (ok ([], k))
  nothing_left len k e = (ground (arith, e), refl)

  read_loop-Reads : (fuel len : ℕ) (k : K) → len ≤ fuel → Reads len k (read_loop fuel len k)
  unfolding read_loop
  read_loop-Reads zero len k h = rw (zero_test len h) (nothing_left len k (zero_test len h))
  read_loop-Reads (suc fuel) len k h = elim (Bool-cases (len == 0)) [
    | inl e ↦ rw e (nothing_left len k e)
    | inr e ↦ elim (Option-cases (net.read len k).0) [
      | inl f ↦
          rw (e, f)
            (
              refl,
              (
                [],
                k,
                ground (arith, e),
                refl,
                subst (λ n. (net.read n k).0 ≡ none) (all_missing len) f,
              ),
            )
      | inr (bytes, f) ↦
          let j = (net.read len k).1 in
          let next = net.read_next len k (ap (λ o. (o, j)) f) in
          rw (e, f)
            (prepend-Reads len k j bytes (read_loop fuel (len - length bytes) j) next.0 next.2
              (read_loop-Reads fuel (len - length bytes) j (omega (arith, h, next.1))))
    ]
  ]

  -- Reading exactly `len` bytes always ends, and gives the next `len` bytes of the stream in order, in
  -- whatever portions the socket delivers them; or it throws, when fewer bytes had come and the
  -- read for all the missing ones gave none.
  pub read_exact-Reads : (len : ℕ) (k : K) → Reads len k (read_exact len k)
  unfolding read_exact
  read_exact-Reads len k = read_loop-Reads len len k (omega arith)
