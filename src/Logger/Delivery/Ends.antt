-- ===== src/Logger/Delivery/Ends.antt =====
-- The fuel of `write_all` in the log calls of src/logger.cpp.
use simple_logger.Base.{
  ℕ, ◌+◌, ◌≤◌, ◌≡◌, ◌≢◌, refl, Bool, true, false, Option, none, some, List, [], Bytes, arith, leb,
  beq, length, if_both, ◌>>=◌,
}
use simple_logger.Base.Int.{ℤ, pos, leb_ℤ}
use simple_logger.Level.{Level}
use simple_logger.Errors.{Errc, ErrorState, ErrorInfo, Call}
use simple_logger.Format.{FormatSpec, Record, SourceLoc, TimeText, build_line}
use simple_logger.Format.Line.{length-build_line}
use simple_logger.Os.{Os}
use simple_logger.Sink.{Written, all, error, looping, write_all, mem_capture_active}
use simple_logger.Sink.WriteAll.{Posix, WrittenWell, write_all-WrittenWell}
use simple_logger.RunDir.{Run}
use simple_logger.RunDir.Calm.{Calm}
use simple_logger.Logger.{Module, Logger}
use simple_logger.Logger.Files.{World, cached_pid, cached_tid, ensure_file_open}
use simple_logger.Logger.Admit.{state_of, file_admits, stdout_admits}
use simple_logger.Logger.Emit.{
  report_open, file_written, write_file, to_capture, file_output, stdout_written, stdout_output,
  stdout_turn, file_turn, gather, dispatch_with, dispatch_published, dispatch, format_and_dispatch,
  emit_to,
}
use simple_logger.Logger.Reload.{resolve_module}
use simple_logger.Logger.Message.{k_max_line}
use simple_logger.Logger.Delivery.{
  write_all-kept, report-kept, report_open-kept, ensure_file_open-kept,
}

-- What the system documents of its files beside `Posix`: a write goes to its own descriptor, and nothing
-- but a write adds to what was written or makes new signals come.
pub record Disk (os : Os) : Type 0 where
  pub posix : Posix os
  pub write_other :
      (fd f : ℤ) (buf : Bytes) (s : os.State)
      → f ≢ fd
      → posix.contents (os.write fd buf s).1 f ≡ posix.contents s f
  pub write_pending :
      (fd : ℤ) (buf : Bytes) (s : os.State) → posix.pending (os.write fd buf s).1 ≤ posix.pending s
  pub sync : (fd f : ℤ) (s : os.State) → posix.contents (os.fdatasync fd s) f ≡ posix.contents s f
  pub sync_pending : (fd : ℤ) (s : os.State) → posix.pending (os.fdatasync fd s) ≤ posix.pending s
  pub quiet : (n : ℕ) → Calm os (λ s. leb (posix.pending s) n)
  pub still : (f : ℤ) (text : Bytes) → Calm os (λ s. beq (posix.contents s f) text)

-- The error handler writes to no descriptor and raises no signal.
pub record IsGentle (os : Os) (disk : Disk os) (call : Call (Logger × os.State)) : Type 0 where
  pub quiet :
      (h u : ℕ) (i : ErrorInfo) (e : ErrorState) (lg : Logger) (s : os.State)
      → disk.posix.pending (call h u i (e, (lg, s))).1.1.1 ≤ disk.posix.pending s
  pub still :
      (h u : ℕ) (i : ErrorInfo) (e : ErrorState) (lg : Logger) (s : os.State) (f : ℤ)
      → disk.posix.contents (call h u i (e, (lg, s))).1.1.1 f ≡ disk.posix.contents s f

module _ (os : Os) (tt_ : TimeText) (sort : List Run → List Run) (call : Call (Logger × os.State))
    (disk : Disk os) (gentle : IsGentle os disk call) where
  abbrev pub pending : os.State → ℕ
  pending s = disk.posix.pending s

  -- At most `n` signals can still come.
  abbrev pub few : ℕ → os.State → Bool
  few n s = leb (pending s) n

  write_few :
      (n : ℕ) (fd : ℤ) (buf : Bytes) (s : os.State)
      → few n s ≡ true
      → few n (os.write fd buf s).1 ≡ true
  write_few n fd buf s h = ground (arith, disk.write_pending fd buf s)

  pub handler_few :
      (n h u : ℕ) (i : ErrorInfo) (e : ErrorState) (lg : Logger) (s : os.State)
      → few n s ≡ true
      → few n (call h u i (e, (lg, s))).1.1.1 ≡ true
  handler_few n h u i e lg s k = ground (arith, gentle.quiet h u i e lg s)

  -- The call has a result, and the signals that can still come are at most `n`.
  abbrev pub EndsWith : ℕ → Option (World os tt_ sort) → Type 0
  EndsWith n none = ⊥
  EndsWith n (some w) = few n w.1.1 ≡ true

  file_written-EndsWith :
      (n : ℕ) (ms : Module) (v fd : ℤ) (written : Written) (old line new : Bytes) (e : ErrorState)
      (lg : Logger) (s : os.State)
      → WrittenWell old line written new
      → few n s ≡ true
      → EndsWith n (file_written os tt_ sort call ms v fd written (e, (lg, s)))
  file_written-EndsWith n ms v fd looping old line new e lg s well h = well
  file_written-EndsWith n ms v fd (error werr) old line new e lg s well h =
      report-kept os tt_ sort call (few n) (handler_few n) Errc.file_write werr ms.display
        (e, (lg, s)) h
  file_written-EndsWith n ms v fd all old line new e lg s well h =
      if_both (λ (w : Logger × os.State). few n w.1 ≡ true) (leb_ℤ v lg.flush_level) _ _
        (ground (arith, disk.sync_pending fd s)) h

  module _ (n fuel : ℕ) (enough : k_max_line + n ≤ fuel) where
    pub few_enough :
        (line : Bytes) (s : os.State)
        → length line ≤ k_max_line
        → few n s ≡ true
        → length line + pending s ≤ fuel
    few_enough line s h k = ground arith

    write_file-EndsWith :
        (ms : Module) (v fd : ℤ) (line : Bytes) (w : World os tt_ sort)
        → length line ≤ k_max_line
        → few n w.1.1 ≡ true
        → EndsWith n (write_file os tt_ sort call fuel ms v fd line w)
    unfolding write_file
    write_file-EndsWith ms v fd line (e, (lg, s)) short h =
        let (written, s') = write_all os fuel fd line s in
        if_both (EndsWith n) (leb_ℤ (pos 0) fd) _ _
          (file_written-EndsWith n ms v fd written _ line _ e lg s'
            (write_all-WrittenWell os disk.posix fuel fd line s (few_enough line s short h))
            (write_all-kept os (few n) fd (write_few n fd) fuel line s h))
          h

    to_capture-EndsWith :
        (on : Bool) (line : Bytes) (w : World os tt_ sort) (written : Option (World os tt_ sort))
        → few n w.1.1 ≡ true
        → EndsWith n written
        → EndsWith n (to_capture os tt_ sort call on line w written)
    to_capture-EndsWith true line (e, (lg, s)) written h k = h
    to_capture-EndsWith false line w written h k = k

    file_output-EndsWith :
        (ms : Module) (v : ℤ) (line : Bytes) (w : World os tt_ sort)
        → length line ≤ k_max_line
        → few n w.1.1 ≡ true
        → EndsWith n (file_output os tt_ sort call fuel ms v line w)
    unfolding file_output
    file_output-EndsWith ms v line (e, (lg, s)) short h =
        let ((fd, oe), w') = ensure_file_open os tt_ sort ms (e, (lg, s)) in
        to_capture-EndsWith (mem_capture_active lg.capture) line (e, (lg, s)) _ h
          (write_file-EndsWith ms v fd line (report_open os tt_ sort call oe w') short (
            report_open-kept os tt_ sort call (few n) (handler_few n) oe w'
              (ensure_file_open-kept os tt_ sort (few n) (disk.quiet n) ms e lg s h)))

    stdout_written-EndsWith :
        (written : Written) (old line new : Bytes) (w : World os tt_ sort)
        → WrittenWell old line written new
        → few n w.1.1 ≡ true
        → EndsWith n (stdout_written os tt_ sort call written w)
    stdout_written-EndsWith looping old line new w well h = well
    stdout_written-EndsWith (error werr) old line new w well h =
        report-kept os tt_ sort call (few n) (handler_few n) Errc.stdout_write werr [] w h
    stdout_written-EndsWith all old line new w well h = h

    pub line_short :
        (fs : FormatSpec) (rec : Record) (colored : Bool)
        → length (build_line tt_ fs rec colored k_max_line) ≤ k_max_line
    line_short fs rec colored =
        length-build_line k_max_line (omega arith) (omega arith) tt_ fs rec colored

    stdout_turn-EndsWith :
        (key : Bytes) (fs : FormatSpec) (rec : Record) (w : World os tt_ sort)
        → few n w.1.1 ≡ true
        → EndsWith n (stdout_turn os tt_ sort call fuel key fs rec w)
    unfolding stdout_turn stdout_output
    stdout_turn-EndsWith key fs rec (e, (lg, s)) h =
        let line = build_line tt_ fs rec lg.stdout_color k_max_line in
        let (written, s') = write_all os fuel (pos 1) line s in
        if_both (EndsWith n) (stdout_admits (state_of key lg) rec.level.value) _ _
          (stdout_written-EndsWith written _ line _ (e, (lg, s'))
            (write_all-WrittenWell os disk.posix fuel (pos 1) line s
              (few_enough line s (line_short fs rec lg.stdout_color) h))
            (write_all-kept os (few n) (pos 1) (write_few n (pos 1)) fuel line s h))
          h

    file_turn-EndsWith :
        (key : Bytes) (fs : FormatSpec) (rec : Record) (w : World os tt_ sort)
        → few n w.1.1 ≡ true
        → EndsWith n (file_turn os tt_ sort call fuel key fs rec w)
    unfolding file_turn
    file_turn-EndsWith key fs rec w h =
        if_both (EndsWith n) (file_admits (state_of key w.1.0) rec.level.value) _ _
          (file_output-EndsWith _ _ _ w (line_short fs rec false) h) h

    bind-EndsWith :
        (o : Option (World os tt_ sort)) (f : World os tt_ sort → Option (World os tt_ sort))
        → EndsWith n o
        → ((w : World os tt_ sort) → few n w.1.1 ≡ true → EndsWith n (f w))
        → EndsWith n (o >>= f)
    bind-EndsWith none f h k = h
    bind-EndsWith (some w) f h k = k w h

    pub dispatch-EndsWith :
        (key : Bytes) (level : Level) (loc : SourceLoc) (msg : Bytes) (o : Option FormatSpec)
        (w : World os tt_ sort)
        → few n w.1.1 ≡ true
        → EndsWith n (dispatch_published os tt_ sort call fuel key level loc msg o w)
    unfolding dispatch_with gather cached_pid cached_tid
    dispatch-EndsWith key level loc msg none w h = h
    dispatch-EndsWith key level loc msg (some fs) w h =
        bind-EndsWith _ _ (file_turn-EndsWith key fs _ _ h)
          (λ w' h'. stdout_turn-EndsWith key fs _ w' h')

  pub returned :
      (n : ℕ) (o : Option (World os tt_ sort))
      → EndsWith n o
      → (w : World os tt_ sort) × (o ≡ some w)
  returned n none h = absurd h
  returned n (some w) h = (w, refl)

  -- With a system as documented and a handler that writes nothing: a round of fuel for each byte of the
  -- longest line and for each signal that can come is enough for a log call to return, whatever has to
  -- be opened, fails or is reported on its way.
  pub emit_to-returns :
      (printf : Bytes → Option Bytes) (fuel : ℕ) (key : Bytes) (level : Level) (loc : SourceLoc)
      (fmt : Option Bytes) (e : ErrorState) (lg : Logger) (s : os.State)
      → k_max_line + disk.posix.pending s ≤ fuel
      → (w : World os tt_ sort) × (emit_to os tt_ sort call printf fuel key level loc fmt
            (e, (lg, s))
          ≡ some w)
  unfolding emit_to format_and_dispatch dispatch
  emit_to-returns printf fuel key level loc fmt e lg s enough = returned (pending s) _ (
      dispatch-EndsWith (pending s) fuel enough key level loc _ (resolve_module key lg).1.fmt_ptr _
        (ground arith))
