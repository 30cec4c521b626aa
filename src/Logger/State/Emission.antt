-- ===== src/Logger/State/Emission.antt =====
-- A log call of src/logger.cpp, on a well-formed logger.
use simple_logger.Base.{
  ℕ, ◌≡◌, refl, Bool, true, false, Option, none, some, List, [], Bytes, if_both, ◌>>=◌, ◌==◌,
}
use simple_logger.Base.Dict.{lookup}
use simple_logger.Base.Int.{ℤ, pos, leb_ℤ}
use simple_logger.Level.{Level, Registry}
use simple_logger.Errors.{Errc, ErrorState, ErrorInfo, Call, report, record_error, run_handler}
use simple_logger.Format.{FormatSpec, Record, SourceLoc, TimeText, build_line}
use simple_logger.Os.{Os}
use simple_logger.Sink.{Written, all, error, looping, write_all, mem_capture_active}
use simple_logger.RunDir.{Run}
use simple_logger.Logger.{Module, Logger, OpenErr}
use simple_logger.Logger.Reload.{resolve_module}
use simple_logger.Logger.Files.{World, cached_pid, cached_tid, ensure_file_open, ensure_run_open}
use simple_logger.Logger.Admit.{
  CallSite, state_of, state_or, resolve_site, file_admits, stdout_admits,
}
use simple_logger.Logger.Emit.{
  report_open, file_written, write_file, to_capture, file_output, stdout_written, stdout_output,
  stdout_turn, file_turn, gather, dispatch_with, dispatch_published, dispatch, format_and_dispatch,
  emit, emit_to,
}
use simple_logger.Logger.Message.{k_max_line}
use simple_logger.Logger.Api.{init}
use simple_logger.Logger.State.{is_held, Layers, IsSoundIn}
use simple_logger.Logger.State.Held.{lookup-IsHeldBy}
use simple_logger.Logger.State.Opening.{ensure_file_open-IsOpened, ensure_run_open-IsWellFormed}
use simple_logger.Logger.State.Ending.{resolve_module-IsWellFormed}
use simple_logger.Logger.State.Admission.{resolve_site-IsSound}

module _ (os : Os) (tt_ : TimeText) (sort : List Run → List Run) (call : Call (Logger × os.State))
    (Fits : Registry → Layers → Type 0)
    (keeps : (h u : ℕ) (i : ErrorInfo) (e : ErrorState) (lg : Logger) (s : os.State)
      → IsSoundIn Fits lg
      → IsSoundIn Fits (call h u i (e, (lg, s))).1.1.0) where
  run_handler-IsSound :
      (handler : Option ℕ) (e : ErrorState) (lg : Logger) (s : os.State)
      → IsSoundIn Fits lg
      → IsSoundIn Fits (run_handler call handler (e, (lg, s))).1.0
  unfolding run_handler
  run_handler-IsSound none e lg s h = h
  run_handler-IsSound (some f) e lg s h =
      if_both (λ (w : World os tt_ sort). IsSoundIn Fits w.1.0) (e.in_handler == 0) _ _
        (keeps f e.user e.sticky (record e { in_handler = 1 }) lg s h) h

  report-IsSound :
      (code : Errc) (err : ℤ) (what : Bytes) (e : ErrorState) (lg : Logger) (s : os.State)
      → IsSoundIn Fits lg
      → IsSoundIn Fits (report call code err what (e, (lg, s))).1.0
  unfolding report
  report-IsSound code err what e lg s h =
      run_handler-IsSound (record_error code err what e).handler (record_error code err what e) lg s
        h

  pub report_open-IsSound :
      (oe : OpenErr) (e : ErrorState) (lg : Logger) (s : os.State)
      → IsSoundIn Fits lg
      → IsSoundIn Fits (report_open os tt_ sort call oe (e, (lg, s))).1.0
  report_open-IsSound oe e lg s h = reported oe.code
    where
      report_of : World os tt_ sort
      report_of = report call oe.code oe.err oe.detail (e, (lg, s))

      reported :
          (c : Errc)
          → let w : World os tt_ sort = elim c [ Errc.ok ↦ (e, (lg, s)) | _ ↦ report_of ] in
            IsSoundIn Fits w.1.0
      reported Errc.ok = h
      reported _ = report-IsSound oe.code oe.err oe.detail e lg s h

  -- If the call ends, its logger is sound.
  abbrev pub EndsSound : Option (World os tt_ sort) → Type 0
  EndsSound none = Unit
  EndsSound (some w) = IsSoundIn Fits w.1.0

  file_written-EndsSound :
      (ms : Module) (v fd : ℤ) (written : Written) (e : ErrorState) (lg : Logger) (s : os.State)
      → IsSoundIn Fits lg
      → EndsSound (file_written os tt_ sort call ms v fd written (e, (lg, s)))
  file_written-EndsSound ms v fd looping e lg s h = tt
  file_written-EndsSound ms v fd (error werr) e lg s h =
      report-IsSound Errc.file_write werr ms.display e lg s h
  file_written-EndsSound ms v fd all e lg s h =
      if_both (λ (w : Logger × os.State). IsSoundIn Fits w.0) (leb_ℤ v lg.flush_level) _ _ h h

  write_file-EndsSound :
      (fuel : ℕ) (ms : Module) (v fd : ℤ) (line : Bytes) (e : ErrorState) (lg : Logger)
      (s : os.State)
      → IsSoundIn Fits lg
      → EndsSound (write_file os tt_ sort call fuel ms v fd line (e, (lg, s)))
  unfolding write_file
  write_file-EndsSound fuel ms v fd line e lg s h =
      let (written, s') = write_all os fuel fd line s in
      if_both EndsSound (leb_ℤ (pos 0) fd) _ _ (file_written-EndsSound ms v fd written e lg s' h) h

  to_capture-EndsSound :
      (on : Bool) (line : Bytes) (e : ErrorState) (lg : Logger) (s : os.State)
      (written : Option (World os tt_ sort))
      → IsSoundIn Fits lg
      → EndsSound written
      → EndsSound (to_capture os tt_ sort call on line (e, (lg, s)) written)
  to_capture-EndsSound true line e lg s written h k = h
  to_capture-EndsSound false line e lg s written h k = k

  file_output-EndsSound :
      (fuel : ℕ) (ms : Module) (v : ℤ) (line : Bytes) (e : ErrorState) (lg : Logger) (s : os.State)
      → IsSoundIn Fits lg
      → is_held lg.open_fds ms.file_fd ≡ true
      → EndsSound (file_output os tt_ sort call fuel ms v line (e, (lg, s)))
  unfolding file_output
  file_output-EndsSound fuel ms v line e lg s (r, l, fits, h) held =
      let ((fd, oe), (e', (lg', s'))) = ensure_file_open os tt_ sort ms (e, (lg, s)) in
      let opened = ensure_file_open-IsOpened os tt_ sort r l ms e lg s h held in
      let (e'', (lg'', s'')) = report_open os tt_ sort call oe (e', (lg', s')) in
      to_capture-EndsSound (mem_capture_active lg.capture) line e lg s _ (r, l, fits, h)
        (write_file-EndsSound fuel ms v fd line e'' lg'' s''
          (report_open-IsSound oe e' lg' s' (r, l, fits, opened.0)))

  stdout_written-EndsSound :
      (written : Written) (e : ErrorState) (lg : Logger) (s : os.State)
      → IsSoundIn Fits lg
      → EndsSound (stdout_written os tt_ sort call written (e, (lg, s)))
  stdout_written-EndsSound looping e lg s h = tt
  stdout_written-EndsSound (error werr) e lg s h = report-IsSound Errc.stdout_write werr [] e lg s h
  stdout_written-EndsSound all e lg s h = h

  stdout_turn-EndsSound :
      (fuel : ℕ) (key : Bytes) (fs : FormatSpec) (rec : Record) (e : ErrorState) (lg : Logger)
      (s : os.State)
      → IsSoundIn Fits lg
      → EndsSound (stdout_turn os tt_ sort call fuel key fs rec (e, (lg, s)))
  unfolding stdout_turn stdout_output
  stdout_turn-EndsSound fuel key fs rec e lg s h =
      let line = build_line tt_ fs rec lg.stdout_color k_max_line in
      let (written, s') = write_all os fuel (pos 1) line s in
      if_both EndsSound (stdout_admits (state_of key lg) rec.level.value) _ _
        (stdout_written-EndsSound written e lg s' h) h

  held_state :
      (key : Bytes) (o : Option Module) (lg : Logger)
      → IsSoundIn Fits lg
      → lookup key lg.modules ≡ o
      → is_held lg.open_fds (state_or key o).file_fd ≡ true
  held_state key none lg h e = refl
  held_state key (some ms) lg (r, l, fits, h) e =
      lookup-IsHeldBy lg.open_fds key ms lg.modules h.1.kept e

  file_turn-EndsSound :
      (fuel : ℕ) (key : Bytes) (fs : FormatSpec) (rec : Record) (e : ErrorState) (lg : Logger)
      (s : os.State)
      → IsSoundIn Fits lg
      → EndsSound (file_turn os tt_ sort call fuel key fs rec (e, (lg, s)))
  unfolding file_turn
  file_turn-EndsSound fuel key fs rec e lg s h =
      let ms = state_of key lg in
      if_both EndsSound (file_admits ms rec.level.value) _ _
        (file_output-EndsSound fuel ms rec.level.value _ e lg s h
          (held_state key (lookup key lg.modules) lg h refl))
        h

  bind-EndsSound :
      (o : Option (World os tt_ sort)) (f : World os tt_ sort → Option (World os tt_ sort))
      → EndsSound o
      → ((e : ErrorState) (lg : Logger) (s : os.State)
          → IsSoundIn Fits lg
          → EndsSound (f (e, (lg, s))))
      → EndsSound (o >>= f)
  bind-EndsSound none f h k = tt
  bind-EndsSound (some w) f h k = k w.0 w.1.0 w.1.1 h

  dispatch-EndsSound :
      (fuel : ℕ) (key : Bytes) (level : Level) (loc : SourceLoc) (msg : Bytes)
      (o : Option FormatSpec) (e : ErrorState) (lg : Logger) (s : os.State)
      → IsSoundIn Fits lg
      → EndsSound (dispatch_published os tt_ sort call fuel key level loc msg o (e, (lg, s)))
  unfolding dispatch_with gather cached_pid cached_tid
  dispatch-EndsSound fuel key level loc msg none e lg s h = h
  dispatch-EndsSound fuel key level loc msg (some fs) e lg s h =
      bind-EndsSound _ _ (file_turn-EndsSound fuel key fs _ e _ s h)
        (λ e' lg' s' h'. stdout_turn-EndsSound fuel key fs _ e' lg' s' h')

  format-EndsSound :
      (printf : Bytes → Option Bytes) (fuel : ℕ) (key : Bytes) (level : Level) (loc : SourceLoc)
      (fmt : Option Bytes) (e : ErrorState) (lg : Logger) (s : os.State)
      → IsSoundIn Fits lg
      → EndsSound (format_and_dispatch os tt_ sort call printf fuel key level loc fmt (e, (lg, s)))
  unfolding format_and_dispatch dispatch
  format-EndsSound printf fuel key level loc fmt e lg s h =
      dispatch-EndsSound fuel key level loc _ lg.fmt_ptr _ lg s h

  pub emit_to-EndsSound :
      (printf : Bytes → Option Bytes) (fuel : ℕ) (key : Bytes) (level : Level) (loc : SourceLoc)
      (fmt : Option Bytes) (e : ErrorState) (lg : Logger) (s : os.State)
      → IsSoundIn Fits lg
      → EndsSound (emit_to os tt_ sort call printf fuel key level loc fmt (e, (lg, s)))
  unfolding emit_to
  emit_to-EndsSound printf fuel key level loc fmt e lg s (r, l, fits, h) =
      format-EndsSound printf fuel key level loc fmt e (resolve_module key lg).1 s
        (r, l, fits, resolve_module-IsWellFormed r l key lg h)

  -- A call at a call site ends with the site and the world.
  abbrev pub SiteEndsSound : Option (CallSite × World os tt_ sort) → Type 0
  SiteEndsSound none = Unit
  SiteEndsSound (some (cs, w)) = IsSoundIn Fits w.1.0

  with_site :
      (cs : CallSite) (o : Option (World os tt_ sort))
      → EndsSound o
      → SiteEndsSound (o >>= λ w. some (cs, w))
  with_site cs none h = tt
  with_site cs (some w) h = h

  pub emit-SiteEndsSound :
      (printf : Bytes → Option Bytes) (fuel : ℕ) (cs : CallSite) (level : Level) (loc : SourceLoc)
      (fmt : Option Bytes) (e : ErrorState) (lg : Logger) (s : os.State)
      → IsSoundIn Fits lg
      → SiteEndsSound (emit os tt_ sort call printf fuel cs level loc fmt (e, (lg, s)))
  unfolding emit
  emit-SiteEndsSound printf fuel cs level loc fmt e lg s h =
      let (cs', lg') = resolve_site cs lg in
      with_site cs' _ (
        format-EndsSound printf fuel cs.module_name level loc fmt e lg' s
          (resolve_site-IsSound Fits cs lg h))

  pub init-IsSound :
      (e : ErrorState) (lg : Logger) (s : os.State)
      → IsSoundIn Fits lg
      → IsSoundIn Fits (init os tt_ sort call (e, (lg, s))).1.1.0
  unfolding init
  init-IsSound e lg s (r, l, fits, h) =
      let ((ok, oe), (e', (lg', s'))) = ensure_run_open os tt_ sort (e, (lg, s)) in
      report_open-IsSound oe e' lg' s'
        (r, l, fits, ensure_run_open-IsWellFormed os tt_ sort r l e lg s h)
