-- ===== src/Config/Parser/Numbers.antt =====
-- The decimal numbers that CommandLineParser.cpp reads with std::from_chars.
use edge_vision.Prelude.{
  ℕ, zero, suc, ◌+◌, ◌-◌, ◌*◌, ◌/◌, ◌%◌, ◌≤◌, ◌≡◌, refl, ◌↔◌, true, String, List, [], ◌∷◌, ◌++◌,
  some, arith, ◌==◌, if◌then◌else◌,
}
use edge_vision.Config.Parser.{
  codes, is_digit, digits_from, from_chars_int, parse_port, port_in_range,
}

-- The decimal digits of a number, with no leading zero; the fuel is enough when it is at least `n`.
unfoldable pub digits : ℕ → ℕ → List ℕ
digits zero n = []
digits (suc fuel) n =
    let front = digits fuel (n / 10) in if n == 0 then [] else front ++ (b'0' + n % 10) ∷ []

digits_from-append :
    (value : ℕ) (cs : List ℕ) (c : ℕ) {w : ℕ}
    → digits_from value cs ≡ some w
    → is_digit c ≡ true
    → digits_from value (cs ++ c ∷ []) ≡ some (w * 10 + (c - b'0'))
unfolding digits_from
digits_from-append value [] c {w} e d = ground arith
digits_from-append value (x ∷ cs) c {w} e d =
    ground (arith, digits_from-append (value * 10 + (x - b'0')) cs c {w = w})

digits_from-digits : (fuel n : ℕ) → n ≤ fuel → digits_from 0 (digits fuel n) ≡ some n
unfolding digits
digits_from-digits zero n h = unfold digits_from in ground arith
digits_from-digits (suc fuel) n h = ground (
  arith,
  empty,
  digits_from-append 0 (digits fuel (n / 10)) (b'0' + n % 10) {w = n / 10}
      (digits_from-digits fuel (n / 10) (omega arith)) digit,
)
  where
    empty : digits_from 0 [] ≡ some 0
    empty = unfold digits_from in refl

    digit : is_digit (b'0' + n % 10) ≡ true
    digit = ground arith

-- A port as the digits of its text, with no sign: the whole text, and nothing else.
port_of_digits :
    (cs : List ℕ) (n : ℕ)
    → digits_from 0 cs ≡ some n
    → 1 ≤ n
    → n ≤ 65535
    → port_in_range (from_chars_int cs) ≡ some n
unfolding from_chars_int digits_from
port_of_digits [] n e h k = ground arith
port_of_digits (c ∷ cs) n e h k = ground arith

digits_of_port :
    (cs : List ℕ) (n : ℕ)
    → port_in_range (from_chars_int cs) ≡ some n
    → (digits_from 0 cs ≡ some n) × (1 ≤ n) × (n ≤ 65535)
unfolding from_chars_int
digits_of_port [] n e = ground arith
digits_of_port (c ∷ cs) n e = ground arith

-- A text is a port exactly when it is all decimal digits and its number is from 1 to 65535: no sign,
-- no space, nothing behind the digits.
pub parse_port_iff :
    (s : String) (n : ℕ)
    → (parse_port s ≡ some n) ↔ ((digits_from 0 (codes s) ≡ some n) × (1 ≤ n) × (n ≤ 65535))
unfolding parse_port
parse_port_iff s n = (digits_of_port (codes s) n, λ h. port_of_digits (codes s) n h.0 h.1 h.2)

-- The decimal numeral of each port is read back as that port.
pub parse_port-digits :
    (s : String) (n : ℕ) → codes s ≡ digits n n → 1 ≤ n → n ≤ 65535 → parse_port s ≡ some n
parse_port-digits s n e h k =
    (parse_port_iff s n).1 (rw e (digits_from-digits n n (omega arith)), h, k)
