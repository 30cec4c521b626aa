-- ===== src/Logger/Closed.antt =====
-- What `shutdown` leaves behind.
use simple_logger.Base.{◌≡◌, refl, ap, true, false, Option, none, some, List, [], ◌∷◌, Bytes, arith}
use simple_logger.Base.Dict.{Dict, lookup}
use simple_logger.Base.Int.{ℤ}
use simple_logger.Errors.{ErrorState, Call}
use simple_logger.Format.{TimeText}
use simple_logger.Os.{Os}
use simple_logger.RunDir.{Run}
use simple_logger.Logger.{Module, Logger}
use simple_logger.Logger.Files.{
  cached_pid, register_crash_fd, clear_crash_fds, set_fd, take_run, open_now, ensure_run_open,
}
use simple_logger.Logger.Life.{store_all, do_shutdown, shutdown_open}

abbrev pub stored : ℤ → Option Module → Option Module
stored fd none = none
stored fd (some ms) = some (set_fd fd ms)

pub lookup-store_all :
    (fd : ℤ) (key : Bytes) (modules : Dict Module)
    → lookup key (store_all fd modules) ≡ stored fd (lookup key modules)
unfolding lookup store_all
lookup-store_all fd key [] = refl
lookup-store_all fd key ((k, ms) ∷ modules) = ground (arith, lookup-store_all fd key modules)

module _ (os : Os) (tt_ : TimeText) (sort : List Run → List Run) where
  pub fresh_run :
      (e : ErrorState) (lg : Logger) (s : os.State)
      → lg.init_state ≡ 0
      → ensure_run_open os tt_ sort (e, (lg, s)) ≡ open_now os tt_ sort (e, (lg, s))
  unfolding ensure_run_open
  fresh_run e lg s h = ground arith

module _ (os : Os) (tt_ : TimeText) (sort : List Run → List Run)
    (call : Call (Logger × os.State)) where
  shut :
      (lg : Logger) (s : os.State)
      → lg.closed ≡ false
      → do_shutdown os (lg, s) ≡ shutdown_open os false (lg, s)
  unfolding do_shutdown
  shut lg s h = ap (λ b. shutdown_open os b (lg, s)) h

  shut_again : (lg : Logger) (s : os.State) → lg.closed ≡ true → do_shutdown os (lg, s) ≡ (lg, s)
  unfolding do_shutdown
  shut_again lg s h = ap (λ b. shutdown_open os b (lg, s)) h

  open_now-closed :
      (e : ErrorState) (lg : Logger) (s : os.State)
      → (open_now os tt_ sort (e, (lg, s))).1.1.0.closed ≡ lg.closed
  unfolding open_now take_run cached_pid register_crash_fd
  open_now-closed e lg s = ground arith

  -- If no run was opened before the shutdown, the shutdown does not keep one from being opened after
  -- it, and a later shutdown does nothing for that run: what was opened stays open.
  pub do_shutdown-late_run :
      (e : ErrorState) (lg : Logger) (s : os.State)
      → lg.closed ≡ false
      → lg.init_state ≡ 0
      → let done = do_shutdown os (lg, s) in
        let late = ensure_run_open os tt_ sort (e, done) in
        (late ≡ open_now os tt_ sort (e, done)) × (do_shutdown os late.1.1 ≡ late.1.1)
  do_shutdown-late_run e lg s up untouched =
      let done = shutdown_open os false (lg, s) in
      let late = open_now os tt_ sort (e, done) in
      rw (shut lg s up, fresh_run os tt_ sort e done.0 done.1 (unfold clear_crash_fds in untouched))
        (refl, shut_again late.1.1.0 late.1.1.1 (open_now-closed e done.0 done.1))
