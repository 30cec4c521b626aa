-- ===== src/Tests/Level.antt =====
-- A registry with a custom level.
use simple_logger.Base.{◌≡◌, ◌≢◌, refl, none, some, Bytes, codes, arith, beq}
use simple_logger.Base.Int.{pos}
use simple_logger.Text.Decimal.{strtol}
use simple_logger.Text.{to_lower, trim?, is_blank}
use simple_logger.Level.{registry, add_level, find_name, parse_level, level_name, parse_number}
use simple_logger.Level.Laws.{IsName, IsWellNamed, parse_level-add_level}
use simple_logger.Level.RoundTrip.{parse_level-level_name}

abbrev notice : Bytes
notice = codes "Notice"

notice-IsName : IsName notice
unfolding to_lower trim? parse_number strtol
notice-IsName = record {
  trimmed = refl;
  not_inherit = λ e. ground arith;
  not_default = λ e. ground arith;
  not_number = refl;
}

error-IsName : IsName (codes "ERROR")
unfolding to_lower trim? parse_number strtol
error-IsName = record {
  trimmed = refl;
  not_inherit = λ e. ground arith;
  not_default = λ e. ground arith;
  not_number = refl;
}

warning-IsName : IsName (codes "WARNING")
unfolding to_lower trim? parse_number strtol
warning-IsName = record {
  trimmed = refl;
  not_inherit = λ e. ground arith;
  not_default = λ e. ground arith;
  not_number = refl;
}

info-IsName : IsName (codes "INFO")
unfolding to_lower trim? parse_number strtol
info-IsName = record {
  trimmed = refl;
  not_inherit = λ e. ground arith;
  not_default = λ e. ground arith;
  not_number = refl;
}

debug-IsName : IsName (codes "DEBUG")
unfolding to_lower trim? parse_number strtol
debug-IsName = record {
  trimmed = refl;
  not_inherit = λ e. ground arith;
  not_default = λ e. ground arith;
  not_number = refl;
}

-- The built-in levels.
pub registry-IsWellNamed : IsWellNamed registry
unfolding find_name to_lower beq
registry-IsWellNamed = record {
  names = (error-IsName, (warning-IsName, (info-IsName, (debug-IsName, tt))));
  distinct = (refl, (refl, (refl, (refl, tt))));
}

fresh : find_name (to_lower notice) registry.entries ≡ none
unfolding find_name to_lower beq
fresh = refl

spaced : trim? is_blank (to_lower (codes " NOTICE")) ≡ some (codes "notice")
unfolding trim? to_lower
spaced = refl

parse_level-add_level_example :
    (codes "notice" ≡ to_lower notice
      → parse_level (add_level registry notice (pos 25)).0 (codes " NOTICE") ≡ some (pos 25))
    × (codes "notice" ≢ to_lower notice
        → parse_level (add_level registry notice (pos 25)).0 (codes " NOTICE")
          ≡ parse_level registry (codes " NOTICE"))
parse_level-add_level_example =
    parse_level-add_level registry notice (pos 25) (codes " NOTICE") (codes "notice") notice-IsName
      fresh spaced

parse_level-level_name_example : parse_level registry (level_name registry (pos 30)) ≡ some (pos 30)
parse_level-level_name_example =
    parse_level-level_name registry (pos 30) registry-IsWellNamed (omega arith, omega arith)
      (λ e. cc)
