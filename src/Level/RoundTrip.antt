-- ===== src/Level/RoundTrip.antt =====
-- Levels that the setters and `configure` write as text, and `parse_level` of src/level.cpp.
use simple_logger.Base.{
  ℕ, ◌≡◌, ◌≢◌, ◌⊎◌, suc, refl, true, false, none, some, List, [], ◌∷◌, arith, Bytes, codes, beq,
  beq_iff, All, Option-cases, inl, inr, Bool-cases,
}
use simple_logger.Base.Int.{ℤ, pos, negsuc, eqb_ℤ, eqb_ℤ_iff, IsInt, to_int_id}
use simple_logger.Text.{to_lower, trim?, is_blank}
use simple_logger.Text.Trim.{trim?_full}
use simple_logger.Text.Decimal.{to_string, print_nat}
use simple_logger.Text.Decimal.RoundTrip.{
  IsDigit, print_nat-IsDigit, print_nat-ne-nil, strtol-to_string,
}
use simple_logger.Level.{
  Registry, find_name, find_value, parse_number, parse_word, parse_level, level_name, k_inherit,
  k_off,
}
use simple_logger.Level.Laws.{
  parse_level-trim?, IsName, IsWellNamed, find_name-find_value, find_value-IsName,
}

-- A byte that a printed number may have.
abbrev IsNumeral : ℕ → Type 0
IsNumeral c = ((c ≡ b'-') ⊎ (IsDigit c))

print_nat-IsNumeral : (s : Bytes) → All IsDigit s → All IsNumeral s
print_nat-IsNumeral [] h = tt
print_nat-IsNumeral (c ∷ s) h = (inr h.0, print_nat-IsNumeral s h.1)

to_string-IsNumeral : (z : ℤ) → All IsNumeral (to_string z)
unfolding to_string
to_string-IsNumeral (pos n) = print_nat-IsNumeral (print_nat n) (print_nat-IsDigit n)
to_string-IsNumeral (negsuc n) =
    (inl refl, print_nat-IsNumeral (print_nat (suc n)) (print_nat-IsDigit (suc n)))

to_string-ne-nil : (z : ℤ) → to_string z ≢ []
unfolding to_string
to_string-ne-nil (pos n) = print_nat-ne-nil n
to_string-ne-nil (negsuc n) = λ e. cc e

numeral-to_lower : (s : Bytes) → All IsNumeral s → to_lower s ≡ s
unfolding to_lower
numeral-to_lower [] h = refl
numeral-to_lower (c ∷ s) h = ground (arith, numeral-to_lower s h.1)

numeral-not_blank : (s : Bytes) → All IsNumeral s → All (λ c. is_blank c ≡ false) s
numeral-not_blank [] h = tt
numeral-not_blank (c ∷ s) h = (ground arith, numeral-not_blank s h.1)

not_inherit : (s : Bytes) → All IsNumeral s → beq s (codes "inherit") ≡ false
unfolding beq
not_inherit [] h = refl
not_inherit (c ∷ s) h = ground arith

not_default : (s : Bytes) → All IsNumeral s → beq s (codes "default") ≡ false
unfolding beq
not_default [] h = refl
not_default (c ∷ s) h = ground arith

parse_number-to_string : (z : ℤ) → IsInt z → parse_number (to_string z) ≡ some z
unfolding parse_number
parse_number-to_string z h =
    rw (strtol-to_string z (omega arith) (omega arith), parse_number, to_int_id z h) refl

find_name-number :
    (t : Bytes) (es : List (Bytes × ℤ))
    → All (λ (e : Bytes × ℤ). IsName e.0) es
    → parse_number t ≢ none
    → find_name t es ≡ none
unfolding find_name
find_name-number t [] h k = refl
find_name-number t ((name, value) ∷ es) h k =
    ground (arith, find_name-number t es h.1 k, beq_iff (to_lower name) t, h.0.not_number)

trim?-to_string : (z : ℤ) → trim? is_blank (to_lower (to_string z)) ≡ some (to_string z)
trim?-to_string z =
    let num = to_string-IsNumeral z in
    rw (numeral-to_lower (to_string z) num)
      (trim?_full is_blank (to_string z) (to_string-ne-nil z) (numeral-not_blank (to_string z) num))

parse_word-to_string :
    (r : Registry) (z : ℤ)
    → All (λ (e : Bytes × ℤ). IsName e.0) r.entries
    → IsInt z
    → parse_word r (to_string z) ≡ some z
unfolding parse_word
parse_word-to_string r z h i =
    let num = to_string-IsNumeral z in
    let parsed = parse_number-to_string z i in
    ground (
      arith,
      not_inherit (to_string z) num,
      not_default (to_string z) num,
      find_name-number (to_string z) r.entries h (λ e. cc (e, parsed)),
      parsed,
    )

-- A number that is no registered name reads as itself.
pub parse_level-to_string :
    (r : Registry) (z : ℤ)
    → All (λ (e : Bytes × ℤ). IsName e.0) r.entries
    → IsInt z
    → parse_level r (to_string z) ≡ some z
parse_level-to_string r z h i =
    let num = to_string-IsNumeral z in
    rw (parse_level-trim? r (to_string z) (to_string z) (trim?-to_string z))
      (parse_word-to_string r z h i)

inherit_name : (r : Registry) (v : ℤ) → eqb_ℤ v k_inherit ≡ true → level_name r v ≡ codes "inherit"
unfolding level_name
inherit_name r v e = ground arith

number_name :
    (r : Registry) (v : ℤ)
    → eqb_ℤ v k_inherit ≡ false
    → v ≢ k_off
    → find_value v r.entries ≡ none
    → level_name r v ≡ to_string v
unfolding level_name
number_name r v e o f = ground (arith, eqb_ℤ_iff v k_off)

registered_name :
    (r : Registry) (v : ℤ) (n : Bytes)
    → eqb_ℤ v k_inherit ≡ false
    → v ≢ k_off
    → find_value v r.entries ≡ some n
    → level_name r v ≡ n
unfolding level_name
registered_name r v n e o f = ground (arith, eqb_ℤ_iff v k_off)

pub inherit_word : (r : Registry) → parse_level r (codes "inherit") ≡ some k_inherit
unfolding parse_level to_lower trim? beq
inherit_word r = refl

registered_word :
    (r : Registry) (v : ℤ) (n : Bytes)
    → IsWellNamed r
    → find_value v r.entries ≡ some n
    → parse_level r n ≡ some v
unfolding parse_word
registered_word r v n w f =
    let is = find_value-IsName v r.entries n w.names f in
    rw (parse_level-trim? r n (to_lower n) is.trimmed) (
      ground (
        arith,
        find_name-find_value v r.entries n w.distinct f,
        is.not_inherit,
        is.not_default,
        beq_iff (to_lower n) (codes "inherit"),
        beq_iff (to_lower n) (codes "default"),
      ))

-- In a well-named registry every `int` but `kOff` survives being written by `level_name` and read
-- by `parse_level`; `kOff` is written as "off", which is no level name unless one is registered.
pub parse_level-level_name :
    (r : Registry) (v : ℤ)
    → IsWellNamed r
    → IsInt v
    → v ≢ k_off
    → parse_level r (level_name r v) ≡ some v
parse_level-level_name r v w i not_off = elim (Bool-cases (eqb_ℤ v k_inherit)) [
  | inl e ↦ rw (inherit_name r v e) (cc (inherit_word r, (eqb_ℤ_iff v k_inherit).0 e))
  | inr e ↦ elim (Option-cases (find_value v r.entries)) [
    | inl f ↦ rw (number_name r v e not_off f) (parse_level-to_string r v w.names i)
    | inr (n, f) ↦ rw (registered_name r v n e not_off f) (registered_word r v n w f)
  ]
]
