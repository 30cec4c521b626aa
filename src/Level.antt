-- ===== src/Level.antt =====
-- src/level.cpp: the level registry, and levels as text. A level is a name and an `int`; a higher
-- value is more verbose. The registry's lock is left out: each operation holds it throughout.
pub mod Laws
pub mod RoundTrip
use mathlib.Core.Bool.{◌||◌}
use simple_logger.Base.{
  ℕ, Bool, true, false, Option, none, some, List, [], ◌∷◌, ◌++◌, Bytes, codes, beq, ◌==◌,
  if◌then◌else◌,
}
use simple_logger.Base.Int.{ℤ, pos, negsuc, eqb_ℤ, to_int}
use simple_logger.Text.{to_lower, trim?, is_blank}
use simple_logger.Text.Decimal.{strtol, to_string}

pub record Level : Type 0 where
  pub value : ℤ
  pub name : Bytes

-- The built-in levels, the two sentinels, and the format macros' constants.
abbrev pub level_error : ℤ
level_error = pos 10

abbrev pub level_warning : ℤ
level_warning = pos 20

abbrev pub level_info : ℤ
level_info = pos 30

abbrev pub level_debug : ℤ
level_debug = pos 40

-- -2000000000
abbrev pub k_off : ℤ
k_off = negsuc 1999999999

-- -1000000000
abbrev pub k_inherit : ℤ
k_inherit = negsuc 999999999

-- Names with values, oldest first. (`storage` only keeps the names' bytes alive.)
pub record Registry : Type 0 where
  pub entries : List (Bytes × ℤ)

-- The registry at its first use.
abbrev pub registry : Registry
registry = record {
  entries =
      (codes "ERROR", level_error)
      ∷ (codes "WARNING", level_warning)
      ∷ (codes "INFO", level_info)
      ∷ (codes "DEBUG", level_debug)
      ∷ [];
}

unfoldable pub add_level : Registry → Bytes → ℤ → Registry × Level
add_level r name value =
    (record { entries = r.entries ++ (name, value) ∷ [] }, record { value = value; name = name })

-- The loop of `parse_level`: the first entry whose name is `t` in lower case.
unfoldable pub find_name : Bytes → List (Bytes × ℤ) → Option ℤ
find_name t [] = none
find_name t ((name, value) ∷ es) = if beq (to_lower name) t then some value else find_name t es

-- The loop of `level_name`: the first entry with this value.
unfoldable pub find_value : ℤ → List (Bytes × ℤ) → Option Bytes
find_value v [] = none
find_value v ((name, value) ∷ es) = if eqb_ℤ value v then some name else find_value v es

-- `*end == '\0'`
abbrev pub at_end : Bytes → Bool
at_end [] = true
at_end (c ∷ s) = c == 0

-- The last part of `parse_level`: a whole integer, cast to `int`.
unfoldable pub parse_number : Bytes → Option ℤ
parse_number t = elim (strtol t) [
  | none ↦ none
  | some (v, rest) ↦ if at_end rest then some (to_int v) else none
]

-- `parse_level` from the trimmed text on: the two words for "no level", a name, a number.
unfoldable pub parse_word : Registry → Bytes → Option ℤ
parse_word r t =
    if beq t (codes "inherit") || beq t (codes "default")
    then some k_inherit
    else elim (find_name t r.entries) [ some v ↦ some v | none ↦ parse_number t ]

unfoldable pub parse_trimmed : Registry → Option Bytes → Option ℤ
unfolding parse_word
parse_trimmed r none = none
parse_trimmed r (some t) = parse_word r t

unfoldable pub parse_level : Registry → Bytes → Option ℤ
unfolding parse_trimmed
parse_level r text = parse_trimmed r (trim? is_blank (to_lower text))

unfoldable pub level_name : Registry → ℤ → Bytes
level_name r value =
    if eqb_ℤ value k_inherit
    then codes "inherit"
    else if eqb_ℤ value k_off
    then codes "off"
    else elim (find_value value r.entries) [ some name ↦ name | none ↦ to_string value ]
