-- ===== src/Config/File.antt =====
-- `read_config_file` and `find_config_path` of src/config.cpp. What a file holds, which files can be
-- read and the environment are parameters.
pub mod Lookup
pub mod Printed
use simple_logger.Base.{
  Bool, true, false, Option, none, some, List, [], ◌∷◌, Bytes, codes, if◌then◌else◌,
}
use simple_logger.Base.Dict
use simple_logger.Base.Int.{ℤ}
use simple_logger.Os.{Outcome, good, bad}
use simple_logger.Text.{strip_comment, cut_at, trim, getline_all}
use simple_logger.Errors.{Errc, ErrorState, record_error}
use simple_logger.Config.{Kv, bad_value}

-- A line without '=', by its trimmed text.
abbrev pub no_value : Bytes → ErrorState → ErrorState
no_value [] e = e
no_value (c ∷ s) e = bad_value (codes "config line without '='") e

-- `if (!key.empty()) kv[key] = val;`
abbrev pub assign : Bytes → Bytes → Kv → Kv
assign [] val kv = kv
assign (c ∷ key) val kv = Dict.insert (c ∷ key) val kv

abbrev pub read_body : Bytes → Option (Bytes × Bytes) → Kv → ErrorState → Kv × ErrorState
read_body body none kv e = (kv, no_value (trim body) e)
read_body body (some (l, r)) kv e = (assign (trim l) (trim r) kv, e)

-- The loop over the lines.
unfoldable pub read_lines : List Bytes → Kv → ErrorState → Kv × ErrorState
read_lines [] kv e = (kv, e)
read_lines (line ∷ rest) kv e =
    let body = strip_comment line in
    let (kv', e') = read_body body (cut_at b'=' body) kv e in read_lines rest kv' e'

-- An opened file, or the error number.
abbrev pub read_opened : Bytes → Outcome Bytes → ErrorState → Kv × ErrorState
read_opened path (bad err) e = ([], record_error Errc.config_file_read err path e)
read_opened path (good content) e = read_lines (getline_all b'\n' content []) [] e

unfoldable pub read_config_file : (Bytes → Outcome Bytes) → Bytes → ErrorState → Kv × ErrorState
unfolding read_lines
read_config_file opens [] e = ([], e)
read_config_file opens (c ∷ path) e = read_opened (c ∷ path) (opens (c ∷ path)) e

abbrev pub default_path : Bytes
default_path = codes "simplelog.conf"

-- `env != nullptr && env[0] != '\0'`
abbrev pub set_text : Option Bytes → Option Bytes
set_text none = none
set_text (some []) = none
set_text (some (c ∷ s)) = some (c ∷ s)

unfoldable pub find_config_path : (Bytes → Option Bytes) → (Bytes → Bool) → Bytes
find_config_path getenv readable = elim (set_text (getenv (codes "SLOG_CONFIG"))) [
  | some path ↦ path
  | none ↦ if readable default_path then default_path else []
]
