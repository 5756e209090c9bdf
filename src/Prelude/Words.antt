-- ===== src/Prelude/Words.antt =====
-- Machine words: unsigned wrap-around, signed integers, and the tests on IEEE binary32 patterns.
use Prim.Native.Nat.{ℕ, ◌+◌, ◌-◌, ◌/◌, ◌%◌}
use mathlib.Core.Path.{◌≡◌}
use native.Mathlib.Omega.{arith}
use mathlib.Core.Bool.{Bool, true, false, not, ◌&&◌, ◌||◌}
use edge_vision.Prelude.Tests.{ltb, ◌==◌}

abbrev pub u64_mod : ℕ
u64_mod = 18446744073709551616

-- ++ on std::size_t and std::uint64_t.
abbrev pub inc64 : ℕ → ℕ
inc64 n = (n + 1) % u64_mod

-- `negsuc n` is -(n + 1).
pub data ℤ : Type 0 where
  pos : ℕ → ℤ
  negsuc : ℕ → ℤ

abbrev pub ltb_ℤ : ℤ → ℤ → Bool
ltb_ℤ (pos a) (pos b) = ltb a b
ltb_ℤ (pos a) (negsuc b) = false
ltb_ℤ (negsuc a) (pos b) = true
ltb_ℤ (negsuc a) (negsuc b) = ltb b a

abbrev pub leb_ℤ : ℤ → ℤ → Bool
leb_ℤ a b = not (ltb_ℤ b a)

abbrev pub eq_ℤ : ℤ → ℤ → Bool
eq_ℤ (pos a) (pos b) = a == b
eq_ℤ (pos a) (negsuc b) = false
eq_ℤ (negsuc a) (pos b) = false
eq_ℤ (negsuc a) (negsuc b) = a == b

-- static_cast<std::uint64_t>, for values of at most 64 bits.
abbrev pub to_u64 : ℤ → ℕ
to_u64 (pos n) = n
to_u64 (negsuc n) = u64_mod - 1 - n

-- A float is its binary32 bit pattern.
abbrev pub Float32 : Type 0
Float32 = ℕ

abbrev pub exponent : Float32 → ℕ
exponent x = x / 8388608 % 256

abbrev pub mantissa : Float32 → ℕ
mantissa x = x % 8388608

abbrev pub sign_bit : Float32 → ℕ
sign_bit x = x / 2147483648 % 2

abbrev pub is_finite : Float32 → Bool
is_finite x = not (exponent x == 255)

abbrev pub is_nan : Float32 → Bool
is_nan x = exponent x == 255 && not (mantissa x == 0)

abbrev pub is_zero : Float32 → Bool
is_zero x = exponent x == 0 && mantissa x == 0

-- x > 0.0f
abbrev pub gt_zero : Float32 → Bool
gt_zero x = not (is_nan x) && (sign_bit x == 0 && not (is_zero x))

-- x >= 0.0f
abbrev pub ge_zero : Float32 → Bool
ge_zero x = not (is_nan x) && (sign_bit x == 0 || is_zero x)

-- x == y: a NaN equals nothing, and the two zeros are equal.
unfoldable pub eq_float : Float32 → Float32 → Bool
eq_float x y = not (is_nan x) && (not (is_nan y) && (x == y || (is_zero x && is_zero y)))

pub same_integer : (a b : ℤ) → eq_ℤ a b ≡ true → a ≡ b
same_integer (pos a) (pos b) e = ground (arith, e)
same_integer (pos a) (negsuc b) e = ground (arith, e)
same_integer (negsuc a) (pos b) e = ground (arith, e)
same_integer (negsuc a) (negsuc b) e = ground (arith, e)
