-- ===== src/Logger/Life.antt =====
-- The end and the restart of src/logger.cpp's logger, its fork handler in the child, and the crash
-- handler's writes.
use simple_logger.Base.{Bool, true, false, List, [], ◌∷◌, Bytes, codes, if◌then◌else◌, take, min}
use simple_logger.Base.Dict.{Dict}
use simple_logger.Base.Int.{ℤ, pos, leb_ℤ}
use simple_logger.Errors.{ErrorState, reset_errors}
use simple_logger.Os.{Os}
use simple_logger.Logger.{Module, Logger, not_opened, gave_up}
use simple_logger.Logger.Files.{k_max_crash_fds, clear_crash_fds, set_fd}
use simple_logger.Logger.Reload.{reload_locked}

-- A store of the same descriptor to every module.
unfoldable pub store_all : ℤ → Dict Module → Dict Module
store_all fd [] = []
store_all fd ((k, ms) ∷ modules) = (k, set_fd fd ms) ∷ store_all fd modules

-- What `do_shutdown`, `do_restart_after_fork` and `do_reset` write to the members alike.
abbrev pub forget_files : Logger → Logger
forget_files lg = record (clear_crash_fds lg) {
  open_fds = [];
  run_dir_fd = not_opened;
  run_lock_fd = not_opened;
  shared_fd = not_opened;
}

module _ (os : Os) where
  unfoldable pub sync_all : List ℤ → os.State → os.State
  sync_all [] s = s
  sync_all (fd ∷ fds) s = sync_all fds (os.fdatasync fd s)

  unfoldable pub sync_and_close : List ℤ → os.State → os.State
  sync_and_close [] s = s
  sync_and_close (fd ∷ fds) s = sync_and_close fds (os.close fd (os.fdatasync fd s))

  unfoldable pub close_all : List ℤ → os.State → os.State
  close_all [] s = s
  close_all (fd ∷ fds) s = close_all fds (os.close fd s)

  -- `if (fd >= 0) ::close(fd);`
  unfoldable pub close_real : ℤ → os.State → os.State
  close_real fd s = if leb_ℤ (pos 0) fd then os.close fd s else s

  abbrev pub close_run : Logger → os.State → os.State
  close_run lg s = close_real lg.run_lock_fd (close_real lg.run_dir_fd s)

  -- `do_flush`, which the destructor calls too
  unfoldable pub do_flush : Logger × os.State → Logger × os.State
  do_flush (lg, s) = (lg, sync_all lg.open_fds s)

  abbrev pub shutdown_open : Bool → Logger × os.State → Logger × os.State
  shutdown_open true (lg, s) = (lg, s)
  shutdown_open false (lg, s) = (
    record (forget_files lg) { closed = true; modules = store_all gave_up lg.modules },
    close_run lg (sync_and_close lg.open_fds s),
  )

  unfoldable pub do_shutdown : Logger × os.State → Logger × os.State
  unfolding store_all clear_crash_fds
  do_shutdown (lg, s) = shutdown_open lg.closed (lg, s)

  unfoldable pub do_restart_after_fork : Logger × os.State → Logger × os.State
  unfolding store_all clear_crash_fds
  do_restart_after_fork (lg, s) = (
    record (forget_files lg) {
      init_state = 0;
      closed = false;
      modules = store_all not_opened lg.modules;
    },
    close_run lg (close_all lg.open_fds s),
  )

  unfoldable pub do_reset : ℤ → ErrorState × (Logger × os.State) → ErrorState × (Logger × os.State)
  do_reset start (e, (lg, s)) =
      let s' = close_run lg (close_all lg.open_fds s) in
      let lg' = record (forget_files lg) {
        init_state = 0;
        closed = false;
        modules = store_all not_opened lg.modules;
        file_kv = [];
        env_kv = [];
        api_kv = [];
        spec_cache = [];
        flush_count = 0;
        start_epoch_ns = start;
      } in
      let (e', lg'') = reload_locked (os.isatty s') (reset_errors e) lg' in (e', (lg'', s'))

  -- `atfork_child`: the child's ids are read anew.
  unfoldable pub atfork_child : Logger × os.State → Logger × os.State
  atfork_child (lg, s) = (record lg { pid = os.getpid s; tid = pos 0 }, s)

  -- The message of `crash_handler`.
  abbrev pub crash_text : Bytes
  crash_text = codes "slog: fatal signal, flushing logs\n"

  unfoldable pub crash_write : List ℤ → os.State → os.State
  crash_write [] s = s
  crash_write (fd ∷ fds) s =
      let s' = os.fdatasync fd (os.write fd crash_text s).1 in
      crash_write fds (if leb_ℤ (pos 0) fd then s' else s)

  -- The loop of `crash_handler`; behind it the signal takes its default course.
  unfoldable pub crash_handler : Logger × os.State → os.State
  unfolding crash_write
  crash_handler (lg, s) = crash_write (take (min lg.crash_fd_count k_max_crash_fds) lg.crash_fds) s
