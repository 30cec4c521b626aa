-- ===== src/Tests/Format.antt =====
-- A pattern, and a line in a small buffer.
use simple_logger.Base.{◌≡◌, refl, true, false, List, [], ◌∷◌, ◌++◌, codes, arith}
use simple_logger.Base.Int.{pos}
use simple_logger.Level.{level_info}
use simple_logger.Format.{Field, Token, FormatSpec, Record, TimeText, build_line, parse_format}
use simple_logger.Format.Line.{render, fit, build_line-eq-fit}
use simple_logger.Format.Lines.{IsClean, IsOneLine, build_line-IsOneLine}
use simple_logger.Format.Parse.{print_tokens, any_clock, parse_format-print_tokens}
use simple_logger.Format.Toggles.{enable_time_escaped}

abbrev pub utc : TimeText
utc = record {
  localtime = λ s. record {
    year = pos 70;
    mon = pos 0;
    mday = pos 1;
    hour = pos 0;
    minute = pos 0;
    sec = pos 0;
  };
  print_seconds = λ n. codes "0.000";
}

abbrev pub tokens : List Token
tokens =
    record { field = Field.level; text = [] }
    ∷ record { field = Field.literal; text = codes ": 5%, " }
    ∷ record { field = Field.msg; text = [] }
    ∷ []

abbrev pub spec : FormatSpec
spec = record { tokens = tokens; needs_time = false; start_epoch_ns = pos 0 }

abbrev pub hello : Record
hello = record {
  level = record { value = level_info; name = codes "INFO" };
  module_name = codes "net";
  loc = record { file = codes "a.cpp"; line = pos 3; func = codes "main" };
  msg = codes "hello, world";
  pid = pos 42;
  tid = pos 43;
  now_epoch_ns = pos 0;
}

build_line-eq-fit_example :
    build_line utc spec hello true 16 ≡ fit 16 (render utc spec hello true tokens)
build_line-eq-fit_example = build_line-eq-fit 16 (omega arith) (omega arith) utc spec hello true

hello-IsClean : IsClean utc spec hello
hello-IsClean = record {
  literals = (tt, (omega arith, (tt, tt)));
  name = omega arith;
  func = omega arith;
  file = omega arith;
  module_name = omega arith;
  msg = omega arith;
  seconds = λ n. omega arith;
}

build_line-IsOneLine_example : IsOneLine (build_line utc spec hello true 16)
build_line-IsOneLine_example =
    build_line-IsOneLine utc spec hello true 16 (omega arith) (omega arith) hello-IsClean

parse_format-print_tokens_example :
    parse_format (print_tokens tokens) false false (pos 0)
    ≡ record { tokens = tokens; needs_time = any_clock tokens; start_epoch_ns = pos 0 }
parse_format-print_tokens_example =
    parse_format-print_tokens tokens (pos 0)
      (λ e. cc, λ e. refl, (λ e. (λ z. cc, λ z. cc), λ e. cc, (λ e. cc, λ e. refl, tt)))

enable_time_escaped_example :
    (parse_format (codes "%%t" ++ codes " left") true false (pos 0)).needs_time ≡ false
enable_time_escaped_example = enable_time_escaped (codes " left") (pos 0) (omega arith)
