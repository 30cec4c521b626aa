-- ===== src/Logger/Files.antt =====
-- The files of src/logger.cpp: the crash handler's table, and the lazy opening of the run and of its
-- files.
pub mod Crash
pub mod Signalled
use simple_logger.Base.{
  ℕ, suc, ◌+◌, Bool, true, false, not, Option, none, some, List, [], ◌∷◌, ◌++◌, Bytes, codes, ltb,
  leb, ◌==◌, if◌then◌else◌, take, length,
}
use simple_logger.Base.Dict
use simple_logger.Base.Int.{ℤ, pos, negsuc, leb_ℤ, ltb_ℤ, eqb_ℤ}
use simple_logger.Errors.{Errc, ErrorState}
use simple_logger.Format.{TimeText}
use simple_logger.Os.{Os, Outcome, good, bad}
use simple_logger.RunDir.{Run, RunDir, open_log_file}
use simple_logger.RunDir.Open.{open_run}
use simple_logger.Logger.{
  Module, Logger, not_opened, gave_up, OpenErr, no_open_err, set_open_err, sanitize_tag,
  format_timestamp, make_filename,
}

abbrev pub k_max_crash_fds : ℕ
k_max_crash_fds = 64

-- `register_crash_fd`: the entry at the count is written, then the count is moved. Entries behind the
-- count are not read.
unfoldable pub register_crash_fd : ℤ → Logger → Logger
register_crash_fd fd lg = if leb k_max_crash_fds lg.crash_fd_count then lg else record lg {
  crash_fds = take lg.crash_fd_count lg.crash_fds ++ fd ∷ [];
  crash_fd_count = lg.crash_fd_count + 1;
}

unfoldable pub clear_crash_fds : Logger → Logger
clear_crash_fds lg = record lg { crash_fd_count = 0 }

-- `open_fds_.push_back(fd); register_crash_fd(fd);`
abbrev pub add_fd : ℤ → Logger → Logger
add_fd fd lg = register_crash_fd fd (record lg { open_fds = lg.open_fds ++ fd ∷ [] })

abbrev pub set_fd : ℤ → Module → Module
set_fd fd ms = record ms { file_fd = fd }

-- The store of a module's state, which its name stands for.
abbrev pub store_fd : Bytes → ℤ → Logger → Logger
store_fd key fd lg = record lg {
  modules = elim (Dict.lookup key lg.modules) [
    | none ↦ lg.modules
    | some ms ↦ Dict.insert key (set_fd fd ms) lg.modules
  ];
}

-- `settings_.log_dir.empty() ? "logs" : settings_.log_dir`
abbrev pub dir_of : Bytes → Bytes
dir_of [] = codes "logs"
dir_of (c ∷ dir) = c ∷ dir

module _ (os : Os) (tt_ : TimeText) (sort : List Run → List Run) where
  -- The errors, the logger, and the system.
  abbrev pub World : Type 0
  World = ErrorState × (Logger × os.State)

  unfoldable pub cached_pid : Logger × os.State → Logger × os.State
  cached_pid (lg, s) = (record lg { pid = if eqb_ℤ lg.pid (pos 0) then os.getpid s else lg.pid }, s)

  unfoldable pub cached_tid : Logger × os.State → Logger × os.State
  cached_tid (lg, s) = (record lg { tid = if eqb_ℤ lg.tid (pos 0) then os.gettid s else lg.tid }, s)

  -- The single file of a run without files per module: its descriptor, or that it could not be opened.
  abbrev pub take_shared : Bytes → RunDir → Logger → OpenErr × Logger
  take_shared first_file rd lg =
      if leb_ℤ (pos 0) rd.first_fd
      then (no_open_err, add_fd rd.first_fd (record lg { shared_fd = rd.first_fd }))
      else (set_open_err Errc.file_open rd.sys_errno first_file, record lg { shared_fd = gave_up })

  -- What `ensure_run_open` makes of the run: whether it opened, and the error.
  unfoldable pub take_run : Bytes → Bytes → RunDir → Logger → (Bool × OpenErr) × Logger
  take_run dir first_file rd lg =
      let lg' = record lg { run_dir_fd = rd.dir_fd; run_lock_fd = rd.run_lock_fd } in
      let (oe, shared) = take_shared first_file rd lg' in
      if not rd.ok
      then ((false, set_open_err rd.code rd.sys_errno dir), record lg { init_state = 2 })
      else if lg.settings.file_per_module
      then ((true, no_open_err), record lg' { init_state = 1 })
      else ((true, oe), record shared { init_state = 1 })

  -- `ensure_run_open` in its first state.
  unfoldable pub open_now : World → (Bool × OpenErr) × World
  open_now (e, (lg0, s)) =
      let dir = dir_of lg0.settings.log_dir in
      let (lg, s') =
        cached_pid (record lg0 { timestamp = format_timestamp tt_ (os.wall_now s) }, s) in
      let first_file =
        if lg.settings.file_per_module
        then []
        else make_filename lg.settings lg.pid lg.timestamp (codes "default") in
      let (rd, (e', s'')) =
        open_run os sort dir (sanitize_tag lg.settings.run_tag) lg.settings.retain_runs
          lg.settings.retain_days lg.pid lg.timestamp first_file (e, s') in
      let (result, lg') = take_run dir first_file rd lg in (result, (e', (lg', s'')))

  unfoldable pub ensure_run_open : World → (Bool × OpenErr) × World
  ensure_run_open (e, (lg, s)) =
      if lg.init_state == 1
      then ((true, no_open_err), (e, (lg, s)))
      else if lg.init_state == 2
      then ((false, no_open_err), (e, (lg, s)))
      else open_now (e, (lg, s))

  -- A module's own file, from the answer of `open_log_file` on.
  abbrev pub take_file : Module → Outcome ℤ → Logger → (ℤ × OpenErr) × Logger
  take_file ms (good fd) lg = ((fd, no_open_err), store_fd ms.name fd (add_fd fd lg))
  take_file ms (bad err) lg =
      ((gave_up, set_open_err Errc.file_open err ms.display), store_fd ms.name gave_up lg)

  -- `ensure_file_open` for an opened run.
  unfoldable pub file_in_run : Module → OpenErr → World → (ℤ × OpenErr) × World
  file_in_run ms oe (e, (lg, s)) =
      let (lg', s') = cached_pid (lg, s) in
      let (opened, s'') =
        open_log_file os lg.run_dir_fd (make_filename lg.settings lg'.pid lg.timestamp ms.display)
          s' in
      let (result, lg'') = take_file ms opened lg' in
      let shared = if ltb_ℤ lg.shared_fd (pos 0) then gave_up else lg.shared_fd in
      if lg.settings.file_per_module
      then (result, (e, (lg'', s'')))
      else ((shared, oe), (e, (store_fd ms.name shared lg, s)))

  -- `ensure_file_open`: the module's descriptor, -2 if that was given up.
  unfoldable pub ensure_file_open : Module → World → (ℤ × OpenErr) × World
  ensure_file_open ms (e, (lg, s)) =
      let ((ok, oe), w) = ensure_run_open (e, (lg, s)) in
      if not (eqb_ℤ ms.file_fd not_opened)
      then ((ms.file_fd, no_open_err), (e, (lg, s)))
      else if ok
      then file_in_run ms oe w
      else ((gave_up, oe), (w.0, (store_fd ms.name gave_up w.1.0, w.1.1)))
