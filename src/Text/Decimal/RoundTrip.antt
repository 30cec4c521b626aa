-- ===== src/Text/Decimal/RoundTrip.antt =====
-- Printed numbers, and `strtol` and `atoi` on them.
use simple_logger.Base.{
  ℕ, zero, suc, ◌+◌, ◌/◌, ◌%◌, ◌^◌, ◌≤◌, ◌<◌, ◌≡◌, ◌≢◌, refl, Bool, true, false, some, [], ◌∷◌,
  arith, Bytes, All, Bool-cases, inl, inr, ◌==◌,
}
use simple_logger.Base.Int.{ℤ, pos, negsuc, pos_part, neg_part, IsInt, to_int_id}
use simple_logger.Text.Decimal.{
  digits, print_nat, to_string, is_digit, scan_digits, clamp_long, read_digits, strtol, atoi,
}

abbrev pub IsDigit : ℕ → Type 0
IsDigit c = is_digit c ≡ true

IsDigit-IsDigit : (n : ℕ) → IsDigit (b'0' + n % 10)
IsDigit-IsDigit n = ground arith

digits-IsDigit : (f n : ℕ) (out : Bytes) → All IsDigit out → All IsDigit (digits f n out)
unfolding digits
digits-IsDigit zero n out h = h
digits-IsDigit (suc f) n out h =
    let ih = digits-IsDigit f (n / 10) ((b'0' + n % 10) ∷ out) (IsDigit-IsDigit n, h) in
    elim (Bool-cases (n == 0)) [ inl e ↦ rw e h | inr e ↦ rw e ih ]

pub print_nat-IsDigit : (n : ℕ) → All IsDigit (print_nat n)
unfolding print_nat
print_nat-IsDigit n = elim (Bool-cases (n == 0)) [
  | inl e ↦ rw e (refl, tt)
  | inr e ↦ rw e (digits-IsDigit n n [] tt)
]

digits-ne-nil : (f n : ℕ) (out : Bytes) → out ≢ [] → digits f n out ≢ []
unfolding digits
digits-ne-nil zero n out h = h
digits-ne-nil (suc f) n out h =
    ground (arith, digits-ne-nil f (n / 10) ((b'0' + n % 10) ∷ out) (λ e. cc e), h)

pub print_nat-ne-nil : (n : ℕ) → print_nat n ≢ []
unfolding print_nat
print_nat-ne-nil zero = λ e. cc e
print_nat-ne-nil (suc n) =
    ground (arith, digits-ne-nil n (suc n / 10) ((b'0' + suc n % 10) ∷ []) (λ e. cc e))

scan_last : (n : ℕ) (out : Bytes) → scan_digits (n / 10) ((b'0' + n % 10) ∷ out) ≡ scan_digits n out
unfolding scan_digits
scan_last n out = ground arith

scan-digits : (f n : ℕ) (out : Bytes) → n ≤ f → scan_digits 0 (digits f n out) ≡ scan_digits n out
unfolding digits
scan-digits zero n out h = let e : n ≡ 0 = omega arith in rw e refl
scan-digits (suc f) n out h =
    ground (arith, scan-digits f (n / 10) ((b'0' + n % 10) ∷ out), scan_last n out)

scan_nil : (n : ℕ) → scan_digits n [] ≡ (n, [])
unfolding scan_digits
scan_nil n = refl

-- The digits of a number spell it.
pub scan-print_nat : (n : ℕ) → scan_digits 0 (print_nat n) ≡ (n, [])
unfolding print_nat scan_digits
scan-print_nat zero = refl
scan-print_nat (suc n) =
    ground (arith, scan-digits (suc n) (suc n) [] (omega arith), scan_nil (suc n))

read_digits-cons :
    (minus : Bool) (s : Bytes)
    → s ≢ []
    → All IsDigit s
    → read_digits minus s ≡ some (clamp_long minus (scan_digits 0 s).0, (scan_digits 0 s).1)
unfolding read_digits
read_digits-cons minus [] h k = absurd (h refl)
read_digits-cons minus (c ∷ s) h k = ground arith

read_digits-print_nat :
    (minus : Bool) (n : ℕ) → read_digits minus (print_nat n) ≡ some (clamp_long minus n, [])
read_digits-print_nat minus n = rw (
  read_digits-cons minus (print_nat n) (print_nat-ne-nil n) (print_nat-IsDigit n),
  scan-print_nat n,
)

-- A digit is neither a space nor a sign.
strtol_digits : (s : Bytes) → s ≢ [] → All IsDigit s → strtol s ≡ read_digits false s
unfolding strtol
strtol_digits [] h k = absurd (h refl)
strtol_digits (c ∷ s) h k = ground arith

-- A printed number that fits a `long` is read back whole.
pub strtol-to_string :
    (z : ℤ) → pos_part z < 2 ^ 63 → neg_part z ≤ 2 ^ 63 → strtol (to_string z) ≡ some (z, [])
unfolding to_string
strtol-to_string (pos n) h k =
    rw
      (
        strtol_digits (print_nat n) (print_nat-ne-nil n) (print_nat-IsDigit n),
        read_digits-print_nat false n,
      )
      (ground arith)
strtol-to_string (negsuc n) h k =
    unfold strtol in rw (read_digits-print_nat true (suc n)) (ground arith)

-- A printed `int` is read back by `atoi`.
pub atoi-to_string : (z : ℤ) → IsInt z → atoi (to_string z) ≡ z
unfolding atoi
atoi-to_string z h = rw (strtol-to_string z (omega arith) (omega arith), atoi) (to_int_id z h)
