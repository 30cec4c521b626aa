-- ===== src/RunDir/Open.antt =====
-- `open_run` of src/run_dir.cpp.
use simple_logger.Base.{true, Option, none, some, List, [], ◌∷◌, ◌++◌, Bytes, codes}
use simple_logger.Base.Int.{ℤ, negsuc}
use simple_logger.Text.Decimal.{to_string}
use simple_logger.Errors.{Errc, ErrorState, record_error}
use simple_logger.Os.{Os, Outcome, good, bad}
use simple_logger.RunDir.{
  Run, RunDir, no_run, k_run_lock_prefix, k_run_lock_suffix, k_struct_lock, mkdir_p, move_out,
  retention, open_log_file,
}

abbrev pub run_lock_path : Bytes → ℤ → Bytes → Bytes
run_lock_path log_dir pid timestamp =
    log_dir
    ++ b'/' ∷ (k_run_lock_prefix ++ (to_string pid ++ b'-' ∷ (timestamp ++ k_run_lock_suffix)))

-- `rd` with an error.
abbrev pub failed_run : Errc → ℤ → Bytes → RunDir → RunDir
failed_run code err what rd = record rd {
  code = code;
  sys_errno = err;
  err = what;
  run_lock_fd = negsuc 0;
}

-- `latest`, or `latest/<tag>`
abbrev pub run_dir_of : Bytes → Bytes → Bytes
run_dir_of latest [] = latest
run_dir_of latest (c ∷ tag) = latest ++ b'/' ∷ c ∷ tag

-- A descriptor that may not be there: -1 if it is not.
abbrev pub fd_or : Option ℤ → ℤ
fd_or none = negsuc 0
fd_or (some fd) = fd

module _ (os : Os) where
  -- `if (!mkdir_p(log_dir) || !mkdir_p(latest))`
  abbrev pub make_second : Bytes → Option ℤ → os.State → Option ℤ × os.State
  make_second latest (some e) s = (some e, s)
  make_second latest none s = mkdir_p os latest s

  unfoldable pub make_dirs : Bytes → Bytes → os.State → Option ℤ × os.State
  make_dirs log_dir latest s = let (done, s') = mkdir_p os log_dir s in make_second latest done s'

  -- `if (rd.run_lock_fd >= 0) ::close(rd.run_lock_fd);`
  abbrev pub close_if : Option ℤ → os.State → os.State
  close_if none s = s
  close_if (some fd) s = os.close fd s

  -- The end of each path that fails behind the structure lock.
  abbrev pub give_up : ℤ → Option ℤ → os.State → os.State
  give_up slfd run_lock s = close_if run_lock (os.close slfd (os.unlock slfd s))

  -- The run's own lock: it is recorded, and no more, if it cannot be opened.
  abbrev pub own_lock :
      Bytes → Outcome ℤ → ErrorState × os.State → Option ℤ × (ErrorState × os.State)
  own_lock path (good fd) (e, s) = (some fd, (e, (os.try_lock fd s).1))
  own_lock path (bad err) (e, s) = (none, (record_error Errc.run_lock err path e, s))

  unfoldable pub take_run_lock : Bytes → ErrorState × os.State → Option ℤ × (ErrorState × os.State)
  take_run_lock path (e, s) =
      let (opened, s') = os.open_create path s in own_lock path opened (e, s')

  -- `first_file`, created while the lock is held; an empty name asks for none.
  abbrev pub first_opened : Outcome ℤ → RunDir → RunDir
  first_opened (good fd) rd = record rd { first_fd = fd }
  first_opened (bad err) rd = record rd { sys_errno = err }

  unfoldable pub open_first : ℤ → Bytes → RunDir → os.State → RunDir × os.State
  open_first dir_fd [] rd s = (rd, s)
  open_first dir_fd (c ∷ first_file) rd s =
      let (opened, s') = open_log_file os dir_fd (c ∷ first_file) s in (first_opened opened rd, s')

  -- `mkdir_p(run_dir)`, for a run with a tag
  abbrev pub make_tag_dir : Bytes → Bytes → os.State → Option ℤ × os.State
  make_tag_dir run_dir [] s = (none, s)
  make_tag_dir run_dir (c ∷ tag) s = mkdir_p os run_dir s

  module _ (sort : List Run → List Run) (log_dir tag : Bytes) (retain_runs retain_days : ℤ)
      (first_file : Bytes) where
    abbrev pub latest : Bytes
    latest = log_dir ++ codes "/latest"

    abbrev pub run_dir : Bytes
    run_dir = run_dir_of latest tag

    -- From the opened run directory on.
    unfoldable pub finish_run : ℤ → ℤ → RunDir → os.State → RunDir × os.State
    finish_run slfd dir_fd rd s =
        let (rd', s') =
          open_first dir_fd first_file (record rd { dir_fd = dir_fd; dir_path = run_dir }) s in
        (
          record rd' { ok = true },
          os.close slfd (os.unlock slfd (retention os sort log_dir retain_runs retain_days s')),
        )

    abbrev pub enter_opened : ℤ → Option ℤ → RunDir → Outcome ℤ → os.State → RunDir × os.State
    enter_opened slfd run_lock rd (bad e) s = (
      failed_run Errc.run_dir_open e (codes "cannot open run dir " ++ run_dir) rd,
      give_up slfd run_lock s,
    )
    enter_opened slfd run_lock rd (good dir_fd) s = finish_run slfd dir_fd rd s

    -- From the made run directory on.
    abbrev pub enter_made : ℤ → Option ℤ → RunDir → Option ℤ → os.State → RunDir × os.State
    enter_made slfd run_lock rd (some e) s = (
      failed_run Errc.dir_create e (codes "cannot create run dir " ++ run_dir) rd,
      give_up slfd run_lock s,
    )
    enter_made slfd run_lock rd none s =
        let (opened, s') = os.open_dir run_dir s in enter_opened slfd run_lock rd opened s'

    -- From the structure lock on, which `opened` is.
    abbrev pub lock_opened :
        Option ℤ → RunDir → Outcome ℤ → ErrorState × os.State → RunDir × (ErrorState × os.State)
    lock_opened run_lock rd (bad err) (e, s) = (
      failed_run Errc.run_lock err (codes "cannot open lock " ++ (log_dir ++ k_struct_lock)) rd,
      (e, close_if run_lock s),
    )
    lock_opened run_lock rd (good slfd) (e, s) =
        let (e', s1) = move_out os latest log_dir (e, os.lock slfd s) in
        let (made, s2) = make_tag_dir run_dir tag s1 in
        let (rd', s3) = enter_made slfd run_lock rd made s2 in (rd', (e', s3))

    -- From the run's own lock on.
    unfoldable pub lock_run : Option ℤ → ErrorState × os.State → RunDir × (ErrorState × os.State)
    lock_run run_lock (e, s) =
        let (opened, s') = os.open_create (log_dir ++ k_struct_lock) s in
        lock_opened run_lock (record no_run { run_lock_fd = fd_or run_lock }) opened (e, s')

    -- From the made directories on.
    abbrev pub run_made :
        ℤ → Bytes → Option ℤ → ErrorState × os.State → RunDir × (ErrorState × os.State)
    run_made pid timestamp (some err) (e, s) =
        (failed_run Errc.dir_create err (codes "cannot create log dir " ++ log_dir) no_run, (e, s))
    run_made pid timestamp none (e, s) =
        let (run_lock, w) = take_run_lock (run_lock_path log_dir pid timestamp) (e, s) in
        lock_run run_lock w

  unfoldable pub open_run :
      (List Run → List Run)
      → Bytes
      → Bytes
      → ℤ
      → ℤ
      → ℤ
      → Bytes
      → Bytes
      → ErrorState × os.State
      → RunDir × (ErrorState × os.State)
  open_run sort log_dir tag retain_runs retain_days pid timestamp first_file (e, s) =
      let (made, s') = make_dirs log_dir (log_dir ++ codes "/latest") s in
      run_made sort log_dir tag retain_runs retain_days first_file pid timestamp made (e, s')
