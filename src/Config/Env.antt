-- ===== src/Config/Env.antt =====
-- `read_env` of src/config.cpp. The environment is a parameter.
pub mod Tokens
pub mod Sorted
pub mod Lookup
use simple_logger.Base.{
  Bool, true, false, Option, none, some, List, [], ◌∷◌, ◌++◌, Bytes, codes, if◌then◌else◌,
}
use simple_logger.Base.Dict
use simple_logger.Text.{cut_at, trim, split}
use simple_logger.Config.{Kv, module_prefix}
use simple_logger.Config.File.{set_text}

-- One token of SLOG_VERBOSITY: a module's level, or the global level, which the first such token is.
abbrev pub read_token : Bytes → Option (Bytes × Bytes) → Bool × Kv → Bool × Kv
read_token tok none (true, kv) = (true, kv)
read_token tok none (false, kv) = (true, Dict.insert (codes "verbosity") tok kv)
read_token tok (some (l, r)) (have_global, kv) =
    (have_global, Dict.insert (module_prefix ++ trim l) (trim r) kv)

unfoldable pub read_tokens : List Bytes → Bool × Kv → Kv
read_tokens [] s = s.1
read_tokens (tok ∷ toks) s = read_tokens toks (read_token tok (cut_at b'=' tok) s)

abbrev pub read_verbosity : Option Bytes → Kv
read_verbosity none = []
read_verbosity (some v) = read_tokens (split v b',') (false, [])

-- The static table `maps`.
abbrev pub maps : List (Bytes × Bytes)
maps =
    (codes "SLOG_DISABLE", codes "disable")
    ∷ (codes "SLOG_DIR", codes "dir")
    ∷ (codes "SLOG_TAG", codes "tag")
    ∷ (codes "SLOG_FILE", codes "file")
    ∷ (codes "SLOG_FILE_PER_MODULE", codes "file.per_module")
    ∷ (codes "SLOG_FILE_NAME", codes "file.name")
    ∷ (codes "SLOG_STDOUT", codes "stdout")
    ∷ (codes "SLOG_STDOUT_ONLY", codes "stdout.only")
    ∷ (codes "SLOG_STDOUT_MODULES", codes "stdout.modules")
    ∷ (codes "SLOG_FORMAT", codes "format")
    ∷ (codes "SLOG_TIME", codes "time")
    ∷ (codes "SLOG_ELAPSED", codes "elapsed")
    ∷ (codes "SLOG_COLOR", codes "color")
    ∷ (codes "SLOG_FLUSH", codes "flush")
    ∷ (codes "SLOG_RETAIN_RUNS", codes "retain.runs")
    ∷ (codes "SLOG_RETAIN_DAYS", codes "retain.days")
    ∷ []

-- `if (get(name)) kv[key] = v;`
abbrev pub assign_if : Bytes → Option Bytes → Kv → Kv
assign_if key none kv = kv
assign_if key (some v) kv = Dict.insert key v kv

-- `if (get("NO_COLOR")) kv["color"] = "never";`
abbrev pub read_no_color : Option Bytes → Kv → Kv
read_no_color none kv = kv
read_no_color (some v) kv = Dict.insert (codes "color") (codes "never") kv

-- The loop over the table.
unfoldable pub read_maps : (Bytes → Option Bytes) → List (Bytes × Bytes) → Kv → Kv
read_maps get [] kv = kv
read_maps get ((env, key) ∷ ms) kv = read_maps get ms (assign_if key (get env) kv)

unfoldable pub read_env : (Bytes → Option Bytes) → Kv
read_env getenv =
    let get : Bytes → Option Bytes = λ name. set_text (getenv name) in
    read_maps get maps
      (read_no_color (get (codes "NO_COLOR")) (read_verbosity (get (codes "SLOG_VERBOSITY"))))
