-- ===== src/Text/Decimal.antt =====
-- Decimal numbers: what `std::to_string` and `%d` print, and what `strtol` and `atoi` read.
pub mod RoundTrip
use simple_logger.Base.{
  ℕ, zero, suc, ◌+◌, ◌-◌, ◌*◌, ◌/◌, ◌%◌, ◌^◌, ◌≤◌, ◌<◌, ◌≡◌, ◌≢◌, refl, Bool, true, false, ◌&&◌,
  ◌||◌, Option, none, some, List, [], ◌∷◌, ◌++◌, arith, Bytes, leb, ltb, ◌==◌, if◌then◌else◌,
  length, replicate, All,
}
use simple_logger.Base.Int.{ℤ, pos, negsuc, pos_part, neg_part, neg, IsInt, to_int, to_int_id}

-- The digits of `n` in front of `out`. `n` rounds are enough, since each divides by ten.
unfoldable pub digits : ℕ → ℕ → Bytes → Bytes
digits zero n out = out
digits (suc f) n out =
    let rest = digits f (n / 10) ((b'0' + n % 10) ∷ out) in if n == 0 then out else rest

unfoldable pub print_nat : ℕ → Bytes
unfolding digits
print_nat n = if n == 0 then b'0' ∷ [] else digits n n []

-- `std::to_string` of an `int` or an `int64_t`, and `%d` and `%ld`
unfoldable pub to_string : ℤ → Bytes
unfolding print_nat
to_string (pos n) = print_nat n
to_string (negsuc n) = b'-' ∷ print_nat (suc n)

-- `%0<w>d`: zeros fill the width, behind the sign
unfoldable pub print_padded : ℕ → ℤ → Bytes
unfolding print_nat
print_padded w (pos n) = let ds = print_nat n in replicate (w - length ds) b'0' ++ ds
print_padded w (negsuc n) =
    let ds = print_nat (suc n) in b'-' ∷ (replicate (w - 1 - length ds) b'0' ++ ds)

abbrev pub is_digit : ℕ → Bool
is_digit c = leb b'0' c && leb c b'9'

-- `isspace` in the "C" locale
abbrev pub is_space : ℕ → Bool
is_space c = c == b' ' || (leb 9 c && leb c 13)

-- The value of the digits in front, behind a value `n`, and what follows them.
unfoldable pub scan_digits : ℕ → Bytes → ℕ × Bytes
scan_digits n [] = (n, [])
scan_digits n (c ∷ s) =
    let more = scan_digits (n * 10 + (c - b'0')) s in if is_digit c then more else (n, c ∷ s)

unfoldable pub skip_space : Bytes → Bytes
skip_space [] = []
skip_space (c ∷ s) = if is_space c then skip_space s else c ∷ s

-- A `long` is 64 bits: a value out of range becomes the nearest one in range.
abbrev pub clamp_long : Bool → ℕ → ℤ
clamp_long true n = if ltb (2 ^ 63) n then neg (2 ^ 63) else neg n
clamp_long false n = if ltb (2 ^ 63 - 1) n then pos (2 ^ 63 - 1) else pos n

-- The number behind the sign; none if no digit stands there.
unfoldable pub read_digits : Bool → Bytes → Option (ℤ × Bytes)
unfolding scan_digits
read_digits minus [] = none
read_digits minus (c ∷ s) =
    if is_digit c
    then (let (n, rest) = scan_digits 0 (c ∷ s) in some (clamp_long minus n, rest))
    else none

unfoldable pub read_sign : Bytes → Option (ℤ × Bytes)
unfolding read_digits
read_sign [] = none
read_sign (c ∷ s) =
    if c == b'-'
    then read_digits true s
    else if c == b'+'
    then read_digits false s
    else read_digits false (c ∷ s)

-- `std::strtol(s, &end, 10)`: the value and the text at `end`; none if `end` is left at the start.
unfoldable pub strtol : Bytes → Option (ℤ × Bytes)
unfolding skip_space read_sign
strtol s = read_sign (skip_space s)

-- `std::atoi`, which glibc computes by `strtol`: 0 if there is no number
unfoldable pub atoi : Bytes → ℤ
unfolding to_int
atoi s = elim (strtol s) [ none ↦ pos 0 | some (v, rest) ↦ to_int v ]
