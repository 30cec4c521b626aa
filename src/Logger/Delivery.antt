-- ===== src/Logger/Delivery.antt =====
-- What becomes of a record in src/logger.cpp: tests of the system's state along the opening of files,
-- the reports and `write_all`.
pub mod Ends
pub mod Appended
pub mod Delivered
use simple_logger.Base.{
  ℕ, zero, suc, ◌≡◌, refl, Bool, true, false, not, Option, none, some, List, [], ◌∷◌, Bytes, codes,
  if_both, if◌then◌else◌, ◌==◌, drop,
}
use simple_logger.Base.Int.{ℤ, eqb_ℤ, ltb_ℤ, pos}
use simple_logger.Errors.{
  Errc, ErrorState, ErrorInfo, Call, report, record_error, run_handler, guarded_call,
}
use simple_logger.Format.{TimeText}
use simple_logger.Os.{Os, Answer, Outcome, interrupted, wrote, failed, good, bad}
use simple_logger.Sink.{Written, write_all, error}
use simple_logger.RunDir.{Run, RunDir, open_log_file}
use simple_logger.RunDir.Calm.{Calm}
use simple_logger.RunDir.CalmRun.{open_run-kept, open_log_file-kept}
use simple_logger.Logger.{Module, Logger, OpenErr, not_opened, gave_up}
use simple_logger.Logger.Files.{
  World, cached_pid, open_now, ensure_run_open, file_in_run, take_file, take_run, ensure_file_open,
}
use simple_logger.Logger.Emit.{report_open}

-- A round of the loop of `write_all` behind an answer.
abbrev round : (os : Os) → ℕ → ℤ → Bytes → os.State → Answer → Written × os.State
round os fuel fd buf s interrupted = write_all os fuel fd buf s
round os fuel fd buf s (failed e) = (error e, s)
round os fuel fd buf s (wrote n) = write_all os fuel fd (drop n buf) s

-- What each `write` to the descriptor keeps, `write_all` keeps.
pub write_all-kept :
    (os : Os) (kept : os.State → Bool) (fd : ℤ)
    → ((buf : Bytes) (s : os.State) → kept s ≡ true → kept (os.write fd buf s).1 ≡ true)
    → (fuel : ℕ) (buf : Bytes) (s : os.State) → kept s ≡ true
    → kept (write_all os fuel fd buf s).1 ≡ true
unfolding write_all
write_all-kept os kept fd writes zero [] s h = h
write_all-kept os kept fd writes (suc fuel) [] s h = h
write_all-kept os kept fd writes zero (c ∷ left) s h = h
write_all-kept os kept fd writes (suc fuel) (c ∷ left) s h =
    rounds (λ buf s' k. write_all-kept os kept fd writes fuel buf s' k) (os.write fd (c ∷ left) s).0
      (os.write fd (c ∷ left) s).1 (writes (c ∷ left) s h)
  where
    rounds :
        ((buf : Bytes) (s' : os.State)
          → kept s' ≡ true
          → kept (write_all os fuel fd buf s').1 ≡ true)
        → (a : Answer) (s' : os.State) → kept s' ≡ true
        → kept (round os fuel fd (c ∷ left) s' a).1 ≡ true
    rounds again interrupted s' k = again (c ∷ left) s' k
    rounds again (failed e) s' k = k
    rounds again (wrote n) s' k = again (drop n (c ∷ left)) s' k

module _ (os : Os) (tt_ : TimeText) (sort : List Run → List Run) (call : Call (Logger × os.State))
    (kept : os.State → Bool)
    (handled : (h u : ℕ) (i : ErrorInfo) (e : ErrorState) (lg : Logger) (s : os.State)
      → kept s ≡ true
      → kept (call h u i (e, (lg, s))).1.1.1 ≡ true) where
  run_handler-kept :
      (handler : Option ℕ) (e : ErrorState) (lg : Logger) (s : os.State)
      → kept s ≡ true
      → kept (run_handler call handler (e, (lg, s))).1.1 ≡ true
  unfolding run_handler
  run_handler-kept none e lg s h = h
  run_handler-kept (some f) e lg s h =
      if_both (λ (w : World os tt_ sort). kept w.1.1 ≡ true) (e.in_handler == 0) _ _
        (handled f e.user e.sticky (record e { in_handler = 1 }) lg s h) h

  pub report-kept :
      (code : Errc) (err : ℤ) (what : Bytes) (w : World os tt_ sort)
      → kept w.1.1 ≡ true
      → kept (report call code err what w).1.1 ≡ true
  unfolding report
  report-kept code err what (e, (lg, s)) h =
      run_handler-kept (record_error code err what e).handler (record_error code err what e) lg s h

  pub report_open-kept :
      (oe : OpenErr) (w : World os tt_ sort)
      → kept w.1.1 ≡ true
      → kept (report_open os tt_ sort call oe w).1.1 ≡ true
  report_open-kept oe w h = reported oe.code
    where
      reported :
          (c : Errc)
          → let w' : World os tt_ sort = elim c [
            | Errc.ok ↦ w
            | _ ↦ report call oe.code oe.err oe.detail w
          ] in
            kept w'.1.1 ≡ true
      reported Errc.ok = h
      reported _ = report-kept oe.code oe.err oe.detail w h

module _ (os : Os) (tt_ : TimeText) (sort : List Run → List Run) (kept : os.State → Bool)
    (calm : Calm os kept) where
  open_now-kept :
      (e : ErrorState) (lg : Logger) (s : os.State)
      → kept s ≡ true
      → kept (open_now os tt_ sort (e, (lg, s))).1.1.1 ≡ true
  unfolding open_now cached_pid
  open_now-kept e lg s h = open_run-kept os kept calm sort _ _ _ _ _ _ _ e s h

  ensure_run_open-kept :
      (e : ErrorState) (lg : Logger) (s : os.State)
      → kept s ≡ true
      → kept (ensure_run_open os tt_ sort (e, (lg, s))).1.1.1 ≡ true
  unfolding ensure_run_open
  ensure_run_open-kept e lg s h =
      let P = λ (res : (Bool × OpenErr) × World os tt_ sort). kept res.1.1.1 ≡ true in
      if_both P (lg.init_state == 1) _ _ h
        (if_both P (lg.init_state == 2) _ _ h (open_now-kept e lg s h))

  file_in_run-kept :
      (ms : Module) (oe : OpenErr) (w : World os tt_ sort)
      → kept w.1.1 ≡ true
      → kept (file_in_run os tt_ sort ms oe w).1.1.1 ≡ true
  unfolding file_in_run cached_pid
  file_in_run-kept ms oe (e, (lg, s)) h =
      if_both (λ (res : (ℤ × OpenErr) × World os tt_ sort). kept res.1.1.1 ≡ true)
        lg.settings.file_per_module _ _ (open_log_file-kept os kept calm lg.run_dir_fd _ s h) h

  pub ensure_file_open-kept :
      (ms : Module) (e : ErrorState) (lg : Logger) (s : os.State)
      → kept s ≡ true
      → kept (ensure_file_open os tt_ sort ms (e, (lg, s))).1.1.1 ≡ true
  unfolding ensure_file_open
  ensure_file_open-kept ms e lg s h =
      let P = λ (res : (ℤ × OpenErr) × World os tt_ sort). kept res.1.1.1 ≡ true in
      let ((ok, oe), w) = ensure_run_open os tt_ sort (e, (lg, s)) in
      let k = ensure_run_open-kept e lg s h in
      if_both P (not (eqb_ℤ ms.file_fd not_opened)) _ _ h
        (if_both P ok _ _ (file_in_run-kept ms oe w k) k)
