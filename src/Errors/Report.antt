-- ===== src/Errors/Report.antt =====
-- `report` of src/error.cpp and the handler: when it runs.
use simple_logger.Base.{
  ◌∙◌, sym, subst, ℕ, ◌≡◌, ◌≢◌, refl, Option, none, some, List, [], ◌∷◌, arith, Bytes, ◌+◌,
}
use simple_logger.Base.Int.{ℤ}
use simple_logger.Errors.{
  Errc, ErrorState, record_error, Ending, Call, guarded_call, run_handler, report, last_error,
  info_of,
}
use simple_logger.Errors.Record.{
  Failure, last_info, record_all, record_all-sticky, record_error-sticky,
}

module _ {W : Type 0} (call : Call W) where
  -- `report`, failure after failure.
  pub report_all : List Failure → ErrorState × W → ErrorState × W
  report_all [] s = s
  report_all (f ∷ fs) s = report_all fs (report call f.code f.err f.what s)

record_error-handler :
    (c : Errc) (err : ℤ) (what : Bytes) (e : ErrorState)
    → ((record_error c err what e).handler ≡ e.handler)
      × ((record_error c err what e).in_handler ≡ e.in_handler)
      × ((record_error c err what e).user ≡ e.user)
unfolding record_error
record_error-handler c err what e = ground arith

run_handler_inside :
    {W : Type 0} (call : Call W) (o : Option ℕ) (e : ErrorState) (w : W)
    → e.in_handler ≢ 0
    → run_handler call o (e, w) ≡ (e, w)
unfolding run_handler
run_handler_inside call none e w h = refl
run_handler_inside call (some a) e w h = ground arith

module _ {W : Type 0} (call : Call W) where
  -- Inside a handler a failure is recorded and no handler runs.
  report_inside :
      (c : Errc) (err : ℤ) (what : Bytes) (e : ErrorState) (w : W)
      → e.in_handler ≢ 0
      → report call c err what (e, w) ≡ (record_error c err what e, w)
  unfolding report
  report_inside c err what e w h =
      let e' = record_error c err what e in
      let kept = record_error-handler c err what e in
      run_handler_inside call e'.handler e' w (λ z. h (cc (z, kept.1)))

  report_all_inside :
      (fs : List Failure) (e : ErrorState) (w : W)
      → e.in_handler ≢ 0
      → report_all call fs (e, w) ≡ (record_all fs e, w)
  unfolding report_all record_all
  report_all_inside [] e w h = refl
  report_all_inside (f ∷ fs) e w h = rw (report_inside f.code f.err f.what e w h) (
      report_all_inside fs (record_error f.code f.err f.what e) w
        (λ z. h (cc (z, (record_error-handler f.code f.err f.what e).1))))

run_handler-in_handler :
    {W : Type 0} (call : Call W) (o : Option ℕ) (e : ErrorState) (w : W)
    → e.in_handler ≡ 0
    → (run_handler call o (e, w)).0.in_handler ≡ 0
unfolding run_handler
run_handler-in_handler call none e w h = h
run_handler-in_handler call (some a) e w h = ground arith

-- Whatever the handler does, returning or throwing, the guard is down when `report` is done.
pub report-in_handler :
    {W : Type 0} (call : Call W) (c : Errc) (err : ℤ) (what : Bytes) (e : ErrorState) (w : W)
    → e.in_handler ≡ 0
    → (report call c err what (e, w)).0.in_handler ≡ 0
unfolding report
report-in_handler call c err what e w h =
    let e' = record_error c err what e in
    run_handler-in_handler call e'.handler e' w (cc (h, (record_error-handler c err what e).1))

run_handler_outside :
    {W : Type 0} (call : Call W) (h : ℕ) (e : ErrorState) (w : W)
    → e.in_handler ≡ 0
    → run_handler call (some h) (e, w) ≡ guarded_call call h (e, w)
unfolding run_handler
run_handler_outside call h e w z = ground arith

report-outside :
    {W : Type 0} (call : Call W) (c : Errc) (err : ℤ) (what : Bytes) (e : ErrorState) (h : ℕ)
    (w : W)
    → e.handler ≡ some h
    → e.in_handler ≡ 0
    → report call c err what (e, w) ≡ guarded_call call h (record_error c err what e, w)
unfolding report
report-outside call c err what e h w set out =
    let e' = record_error c err what e in
    let kept = record_error-handler c err what e in
    let called : e'.handler ≡ some h = cc (kept.0, set) in
    subst (λ o. run_handler call o (e', w) ≡ guarded_call call h (e', w)) (sym called)
      (run_handler_outside call h e' w (cc (kept.1, out)))

-- A handler that counts its calls, and then fails through slog by the failures `fs` before it ends.
abbrev pub failing_handler : Call ℕ → List Failure → Ending → Call ℕ
failing_handler inner fs ending h u i (e, n) = (ending, report_all inner fs (e, n + 1))

-- With a handler installed that itself fails through slog, any number of times, and then returns
-- or throws, one `report` outside a handler calls it exactly once. The handler's own failures are
-- recorded: the last of them is the last error.
pub report_once :
    (inner : Call ℕ) (fs : List Failure) (ending : Ending) (c : Errc) (err : ℤ) (what : Bytes)
    (e : ErrorState) (h n : ℕ)
    → e.handler ≡ some h
    → e.in_handler ≡ 0
    → let s = report (failing_handler inner fs ending) c err what (e, n) in
      (s.1 ≡ n + 1) × (last_error s.0 ≡ last_info (info_of c err what) fs)
unfolding guarded_call
report_once inner fs ending c err what e h n set out =
    let e' = record_error c err what e in
    let inside = record e' { in_handler = 1 } in
    let nested = report_all_inside inner fs inside (n + 1) (omega arith) in
    rw (report-outside (failing_handler inner fs ending) c err what e h n set out, nested)
      (refl, record_all-sticky fs inside ∙ rw (record_error-sticky c err what e) refl)
