-- ===== src/Logger.antt =====
-- src/logger.cpp: the logger's state, its modules' thresholds, and the names of its files. `mu_` makes
-- each operation whole, so each is a function from state to state; a relaxed or released store is the
-- new state's field.
pub mod Names
pub mod Reload
pub mod Files
pub mod Message
pub mod Admit
pub mod Emit
pub mod Filter
pub mod Closed
pub mod Forked
pub mod Stems
pub mod Life
pub mod Api
pub mod State
pub mod Policy
pub mod Delivery
pub mod Threads
use mathlib.Core.Bool.{not, ◌||◌, ◌&&◌}
use simple_logger.Base.{
  ℕ, Bool, true, false, Option, none, some, List, [], ◌∷◌, ◌++◌, Bytes, codes, beq, leb, take,
  replicate, length, ◌==◌, if◌then◌else◌,
}
use simple_logger.Base.Dict.{Dict}
use simple_logger.Base.Int.{ℤ, pos, negsuc, ◌-ℤ◌, quot}
use simple_logger.Text.Decimal.{to_string, print_padded}
use simple_logger.Text.{find_last_not_of, find_first_not_of}
use simple_logger.Level.{Registry, registry, k_off, level_warning}
use simple_logger.Errors.{Errc}
use simple_logger.Format.{FormatSpec, TimeText}
use simple_logger.Sink.{Capture, start_capture}
use simple_logger.Config.{Kv, Settings, default_settings}

-- `ModuleState`. Its `file_fd` is -1 before the file is opened and -2 when that was given up.
pub record Module : Type 0 where
  pub name : Bytes
  pub display : Bytes
  pub collect_level : ℤ
  pub file_level : ℤ
  pub stdout_level : ℤ
  pub stdout_only : Bool
  pub file_fd : ℤ

abbrev pub not_opened : ℤ
not_opened = negsuc 0

abbrev pub gave_up : ℤ
gave_up = negsuc 1

abbrev pub new_module : Bytes → Bytes → Module
new_module name display = record {
  name = name;
  display = display;
  collect_level = k_off;
  file_level = k_off;
  stdout_level = k_off;
  stdout_only = false;
  file_fd = not_opened;
}

-- The members of `Logger` and the globals beside it. A spec stands for the pointer to it; `specs` is
-- what is kept alive. `crash_fds` is the part of the table that was written.
pub record Logger : Type 0 where
  pub file_kv : Kv
  pub env_kv : Kv
  pub api_kv : Kv
  pub settings : Settings
  pub modules : Dict Module
  pub fmt_ptr : Option FormatSpec
  pub specs : List FormatSpec
  pub spec_cache : Dict FormatSpec
  pub flush_level : ℤ
  pub stdout_color : Bool
  pub start_epoch_ns : ℤ
  pub init_state : ℕ
  pub run_dir_fd : ℤ
  pub run_lock_fd : ℤ
  pub shared_fd : ℤ
  pub timestamp : Bytes
  pub open_fds : List ℤ
  pub closed : Bool
  pub disabled : Bool
  pub flush_count : ℕ
  pub crash_fds : List ℤ
  pub crash_fd_count : ℕ
  pub pid : ℤ
  pub tid : ℤ
  pub levels : Registry
  pub capture : Capture

-- The members' and the globals' first values.
abbrev pub new_logger : ℤ → Logger
new_logger start = record {
  file_kv = [];
  env_kv = [];
  api_kv = [];
  settings = default_settings;
  modules = [];
  fmt_ptr = none;
  specs = [];
  spec_cache = [];
  flush_level = level_warning;
  stdout_color = false;
  start_epoch_ns = start;
  init_state = 0;
  run_dir_fd = not_opened;
  run_lock_fd = not_opened;
  shared_fd = not_opened;
  timestamp = [];
  open_fds = [];
  closed = false;
  disabled = false;
  flush_count = 0;
  crash_fds = [];
  crash_fd_count = 0;
  pid = pos 0;
  tid = pos 0;
  levels = registry;
  capture = start_capture;
}

-- `ok` of `sanitize`
abbrev pub is_safe : ℕ → Bool
is_safe c =
    (leb b'a' c && leb c b'z')
    || ((leb b'A' c && leb c b'Z')
        || ((leb b'0' c && leb c b'9') || (c == b'-' || (c == b'_' || c == b'.'))))

unfoldable pub sanitize : Bytes → Bytes
sanitize [] = []
sanitize (c ∷ s) = (if is_safe c then c else b'_') ∷ sanitize s

-- The last part of `sanitize_tag`: underscores for a tag of dots.
abbrev pub without_dots : Bytes → Option ℕ → Bytes
without_dots t none = replicate (length t) b'_'
without_dots t (some i) = t

unfoldable pub sanitize_tag : Bytes → Bytes
sanitize_tag [] = []
sanitize_tag (c ∷ tag) =
    let t = sanitize (c ∷ tag) in without_dots t (find_first_not_of (λ c. c == b'.') t)

unfoldable pub format_timestamp : TimeText → ℤ → Bytes
format_timestamp tt_ epoch_ns =
    let tm = tt_.localtime (quot epoch_ns 1000000000) in
    print_padded 4 (tm.year -ℤ negsuc 1899)
    ++ (print_padded 2 (tm.mon -ℤ negsuc 0)
        ++ (print_padded 2 tm.mday
            ++ b'-'
              ∷ (print_padded 2 tm.hour ++ (print_padded 2 tm.minute ++ print_padded 2 tm.sec))))

-- `OpenErr`; its text is cut to its array of 128 bytes by `set`.
pub record OpenErr : Type 0 where
  pub code : Errc
  pub err : ℤ
  pub detail : Bytes

abbrev pub no_open_err : OpenErr
no_open_err = record { code = Errc.ok; err = pos 0; detail = [] }

abbrev pub set_open_err : Errc → ℤ → Bytes → OpenErr
set_open_err c e d = record { code = c; err = e; detail = take 127 d }

-- `find_last_of('.')`, and the text up to there and from there on
unfoldable pub split_ext : Bytes → Option (Bytes × Bytes)
split_ext [] = none
split_ext (c ∷ s) = elim (split_ext s) [
  | some (stem, ext) ↦ some (c ∷ stem, ext)
  | none ↦ if c == b'.' then some ([], c ∷ s) else none
]

abbrev pub stem_and_ext : Bytes → Option (Bytes × Bytes) → Bytes × Bytes
stem_and_ext base none = (base, [])
stem_and_ext base (some p) = p

-- The stem and the extension of a run's files, by `file_name` or else by the process and the time.
abbrev pub base_name : ℤ → Bytes → Bytes → Bytes × Bytes
base_name pid timestamp [] = (to_string pid ++ b'-' ∷ timestamp, codes ".log")
base_name pid timestamp (c ∷ base) = stem_and_ext (c ∷ base) (split_ext (c ∷ base))

abbrev pub with_tag : Bytes → Bytes → Bytes
with_tag [] name = name
with_tag (c ∷ tag) name = sanitize_tag (c ∷ tag) ++ b'-' ∷ name

unfoldable pub make_filename : Settings → ℤ → Bytes → Bytes → Bytes
make_filename settings pid timestamp module_display =
    let (stem, ext) = base_name pid timestamp settings.file_name in
    let stem' = if settings.file_per_module then stem ++ b'-' ∷ sanitize module_display else stem in
    with_tag settings.run_tag (stem' ++ ext)
