-- ===== src/Logger/Stems.antt =====
-- The names that src/logger.cpp gives the files of a run without a tag or a file name, beside the stem that
-- `retention` of src/run_dir.cpp reads off the lock file of a run.
use mathlib.Core.Bool.{not, ◌&&◌}
use simple_logger.Base.{ℕ, Bool, Option, some, none, [], ◌∷◌, ◌++◌, Bytes, codes, if◌then◌else◌}
use simple_logger.Base.Int.{pos}
use simple_logger.Text.Decimal.{to_string}
use simple_logger.Config.{Settings}
use simple_logger.RunDir.{k_run_lock_prefix, k_run_lock_suffix, starts_with, ends_with}
use simple_logger.Logger.{make_filename}

-- The stem of a run's files, and the name of its lock file.
abbrev pub run_stem : ℕ → Bytes → Bytes
run_stem pid timestamp = to_string (pos pid) ++ b'-' ∷ timestamp

abbrev pub lock_name : ℕ → Bytes → Bytes
lock_name pid timestamp = k_run_lock_prefix ++ (run_stem pid timestamp ++ k_run_lock_suffix)

-- A run's file, with settings that have no tag and no file name.
abbrev pub file_of : Settings → ℕ → Bytes → Bytes → Bytes
file_of s pid timestamp display =
    make_filename (record s { run_tag = []; file_name = [] }) (pos pid) timestamp display

-- The names that `reap_run_files` deletes for a stem.
abbrev pub is_reaped : Bytes → Bytes → Bool
is_reaped stem n = starts_with stem n && ends_with (codes ".log") n

abbrev chosen : Bool → Bool → Bool → Bytes → Option Bytes
chosen starts short ends t =
    if not starts then none else if short then none else if not ends then none else some t
