-- ===== src/App/FrameDumper/Files.antt =====
-- The names of the files that makeOutputPath in ViewerFrameDumper.cpp makes.
use edge_vision.Prelude.{
  ℕ, zero, suc, ◌+◌, ◌-◌, ◌*◌, ◌/◌, ◌%◌, ◌≤◌, ◌≡◌, ◌≢◌, refl, sym, ap, ◌∙◌, arith, true, false,
  Bool-cases, inl, inr, List, [], ◌∷◌, ◌++◌, length, drop, ◌==◌, if◌then◌else◌,
}
use edge_vision.Config.Parser.{codes}
use edge_vision.App.FrameDumper.{decimal, zeros, padded, make_output_name}

-- The number that stands before the first dot.
unfoldable number_before_dot : ℕ → List ℕ → ℕ
number_before_dot value [] = value
number_before_dot value (c ∷ cs) =
    let rest = number_before_dot (value * 10 + (c - b'0')) cs in if c == b'.' then value else rest

zero_of : (n : ℕ) → n ≤ 0 → n ≡ 0
zero_of n h = omega (arith, h)

zero_test : (n : ℕ) → (n == 0) ≡ true → n ≡ 0
zero_test n e = ground (arith, e)

nonzero : (n : ℕ) → (n == 0) ≡ false → 1 ≤ n
nonzero n e = ground (arith, e)

append_assoc : (xs ys zs : List ℕ) → (xs ++ ys) ++ zs ≡ xs ++ (ys ++ zs)
append_assoc [] ys zs = refl
append_assoc (x ∷ xs) ys zs = rw (append_assoc xs ys zs)

digit_not_dot : (n : ℕ) → (b'0' + n % 10 == b'.') ≡ false
digit_not_dot n = ground arith

digit_value : (n : ℕ) → n / 10 * 10 + (b'0' + n % 10 - b'0') ≡ n
digit_value n = omega arith

number_digit :
    (n : ℕ) (rest : List ℕ)
    → number_before_dot (n / 10) ((b'0' + n % 10) ∷ rest) ≡ number_before_dot n rest
unfolding number_before_dot
number_digit n rest = rw (digit_not_dot n, digit_value n) refl

number-decimal :
    (fuel n : ℕ) (rest : List ℕ)
    → n ≤ fuel
    → number_before_dot 0 (decimal fuel n ++ rest) ≡ number_before_dot n rest
unfolding decimal
number-decimal zero n rest h = ap (λ k. number_before_dot k rest) (sym (zero_of n h))
number-decimal (suc fuel) n rest h = elim (Bool-cases (n == 0)) [
  | inl e ↦ rw e (ap (λ k. number_before_dot k rest) (sym (zero_test n e)))
  | inr e ↦ rw e (
      ap (number_before_dot 0) (append_assoc (decimal fuel (n / 10)) ((b'0' + n % 10) ∷ []) rest)
      ∙ number-decimal fuel (n / 10) ((b'0' + n % 10) ∷ rest) (omega (arith, h, nonzero n e))
      ∙ number_digit n rest)
]

number-zeros :
    (k : ℕ) (rest : List ℕ) → number_before_dot 0 (zeros k ++ rest) ≡ number_before_dot 0 rest
unfolding number_before_dot
number-zeros zero rest = refl
number-zeros (suc k) rest = number-zeros k rest

number-padded : (n : ℕ) → number_before_dot 0 (padded n ++ codes ".ppm") ≡ n
unfolding padded number_before_dot
number-padded n =
    ap (number_before_dot 0)
      (append_assoc (zeros (4 - length (decimal n n))) (decimal n n) (codes ".ppm"))
    ∙ number-zeros (4 - length (decimal n n)) (decimal n n ++ codes ".ppm")
    ∙ number-decimal n n (codes ".ppm") (omega arith)

-- Two dumps of different sequence numbers never share a file name.
pub make_output_name_distinct : (m n : ℕ) → m ≢ n → make_output_name m ≢ make_output_name n
unfolding make_output_name
make_output_name_distinct m n differ e =
    differ
      (sym (number-padded m) ∙ ap (λ name. number_before_dot 0 (drop 14 name)) e ∙ number-padded n)
