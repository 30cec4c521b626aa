-- ===== src/Testing/Reset.antt =====
-- What the tests' `reset` leaves of a logger.
use simple_logger.Base.{◌+◌, ◌≡◌, Bool, List, [], Bytes, length-append}
use simple_logger.Base.Dict.{Dict, lookup}
use simple_logger.Base.Int.{ℤ, pos}
use simple_logger.Level.{registry}
use simple_logger.Errors.{ErrorState, start_errors}
use simple_logger.Format.{TimeText}
use simple_logger.Os.{Os}
use simple_logger.Config.{apply_kv}
use simple_logger.Config.Layers.{merge, overlay}
use simple_logger.RunDir.{Run}
use simple_logger.Sink.{mem_capture_reset}
use simple_logger.Logger.{Module, Logger, new_logger, not_opened}
use simple_logger.Logger.Reload.{reload_locked, install, publish_spec}
use simple_logger.Logger.Files.{clear_crash_fds}
use simple_logger.Logger.Life.{do_reset}
use simple_logger.Testing.{Clocks, reset_clock, reset_mono_clock, reset, format_spec_count}

-- A logger without the members that a reset leaves: the modules, the specs that are kept alive, the
-- entries behind the crash handler's count, the last run's time, the cached ids, and the level names.
abbrev pub forget : Logger → Logger
forget lg = record lg {
  modules = [];
  specs = [];
  crash_fds = [];
  timestamp = [];
  pid = pos 0;
  tid = pos 0;
  levels = registry;
}

-- A module without the name that is shown.
abbrev pub unshown : Module → Module
unshown ms = record ms { display = [] }

abbrev IsNotOpened : Bytes × Module → Type 0
IsNotOpened (key, ms) = ms.file_fd ≡ not_opened

module _ (os : Os) (steady : os.State → ℤ) (tt_ : TimeText) (sort : List Run → List Run) where
  -- The logger that a process has at its start, with no file and no variables, and these level names.
  abbrev pub fresh : Bool → Logger → ℤ → Logger
  fresh tty lg now =
      (reload_locked tty start_errors (record (new_logger now) { levels = lg.levels })).1

  -- The count of the formats is not set back by a reset: the default format is parsed again and kept.
  pub reset-format_spec_count :
      (c : Clocks os steady) (e : ErrorState) (lg : Logger) (s : os.State)
      → format_spec_count (reset os steady tt_ sort (c, (e, (lg, s)))).1.1.0
        ≡ format_spec_count lg + 1
  unfolding reset do_reset reload_locked install publish_spec lookup merge overlay apply_kv
      reset_clock reset_mono_clock clear_crash_fds mem_capture_reset format_spec_count
  reset-format_spec_count c e lg s = length-append lg.specs _
