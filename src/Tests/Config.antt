-- ===== src/Tests/Config.antt =====
-- A small configuration.
use simple_logger.Base.{◌≡◌, refl, [], ◌∷◌, codes, beq, less}
use simple_logger.Base.Dict.{lookup, IsSorted}
use simple_logger.Level.{registry}
use simple_logger.Errors.{start_errors}
use simple_logger.Config.{Kv, apply_kv, default_settings}
use simple_logger.Config.Keys.{name}
use simple_logger.Base.{Bytes, Option, some, none, ◌++◌, if◌then◌else◌}
use simple_logger.Os.{Outcome, good}
use simple_logger.Text.{getline_all}
use simple_logger.Text.Trim.{drop_front, drop_back}
use simple_logger.Config.{module_prefix}
use simple_logger.Config.File.{set_text, read_config_file}
use simple_logger.Base.{All, arith}
use simple_logger.Config.File.Printed.{IsWritable, print_kv, read_config_file-print_kv}
use simple_logger.Config.File.Lookup.{last_given, read_config_file-lookup}
use simple_logger.Config.Env.{maps, read_env}
use simple_logger.Config.Env.Tokens.{first_plain, last_level, tokens_of}
use simple_logger.Config.Env.Lookup.{variable, no_color, read_env-lookup}
use simple_logger.Config.Layers.{merge, or_else, apply_kv-merge}
use simple_logger.Config.Apply.{resolve}

abbrev quiet : Kv
quiet =
    (codes "file", codes "off")
    ∷ (codes "module.net", codes "debug")
    ∷ (codes "verbosity", codes "Error")
    ∷ []

pub quiet-IsSorted : IsSorted quiet
quiet-IsSorted = unfold less in ((refl, (refl, tt)), ((refl, tt), (tt, tt)))

abbrev loud : Kv
loud = (codes "format", codes "%m") ∷ (codes "verbosity", codes "debug") ∷ []

loud-IsSorted : IsSorted loud
loud-IsSorted = unfold less in ((refl, tt), (tt, tt))

apply_kv-merge_example :
    record (apply_kv registry (merge quiet loud quiet) default_settings start_errors).0 {
      module_level = [];
    }
    ≡ resolve registry (λ k. or_else (lookup k quiet) (or_else (lookup k loud) (lookup k quiet)))
apply_kv-merge_example =
    apply_kv-merge registry quiet loud quiet start_errors quiet-IsSorted loud-IsSorted
      quiet-IsSorted

abbrev text : Bytes
text = codes "# comment\nverbosity = info\nverbosity=debug # last\n"

abbrev one_file : Bytes → Outcome Bytes
one_file path = good text

read_config_file-lookup_example :
    IsSorted (read_config_file one_file (codes "a.conf") start_errors).0
    × (lookup (codes "verbosity") (read_config_file one_file (codes "a.conf") start_errors).0
        ≡ last_given (codes "verbosity") (getline_all b'\n' text []))
read_config_file-lookup_example =
    read_config_file-lookup one_file (codes "a.conf") text (codes "verbosity") start_errors
      (λ e. cc) refl (λ e. cc)

-- A pattern with blanks and a `%#` inside.
abbrev kept : Kv
kept = (codes "format", codes "[%L] %#: %m") ∷ (codes "module.net", codes "debug") ∷ []

abbrev kept_file : Bytes → Outcome Bytes
kept_file path = good (print_kv kept)

kept-IsWritable : All IsWritable kept
unfolding drop_front drop_back
kept-IsWritable = (
  record {
    key_named = λ e. cc;
    key_trimmed = refl;
    key_line = ground arith;
    key_hash = ground arith;
    key_equals = ground arith;
    text_trimmed = refl;
    text_line = ground arith;
    text_hash = refl;
  },
  (
    record {
      key_named = λ e. cc;
      key_trimmed = refl;
      key_line = ground arith;
      key_hash = ground arith;
      key_equals = ground arith;
      text_trimmed = refl;
      text_line = ground arith;
      text_hash = refl;
    },
    tt,
  ),
)

kept-IsSorted : IsSorted kept
kept-IsSorted = unfold less in ((refl, tt), (tt, tt))

read_config_file-print_kv_example :
    IsSorted (read_config_file kept_file (codes "a.conf") start_errors).0
    × (lookup (codes "format") (read_config_file kept_file (codes "a.conf") start_errors).0
        ≡ lookup (codes "format") kept)
read_config_file-print_kv_example =
    read_config_file-print_kv kept_file (codes "a.conf") (codes "format") kept start_errors
      (λ e. cc) refl kept-IsWritable kept-IsSorted (λ e. cc)

abbrev no_color_set : Bytes → Option Bytes
no_color_set name = if beq name (codes "NO_COLOR") then some (codes "1") else none

read_env-lookup_example :
    (lookup (codes "verbosity") (read_env no_color_set)
      ≡ first_plain (tokens_of (set_text (no_color_set (codes "SLOG_VERBOSITY")))))
    × ((m : Bytes)
        → lookup (module_prefix ++ m) (read_env no_color_set)
          ≡ last_level m (tokens_of (set_text (no_color_set (codes "SLOG_VERBOSITY")))))
    × ((j env : Bytes)
        → variable j maps ≡ some env
        → lookup j (read_env no_color_set)
          ≡ or_else
              (set_text (no_color_set env))
              (no_color j (set_text (no_color_set (codes "NO_COLOR")))))
read_env-lookup_example = read_env-lookup no_color_set
