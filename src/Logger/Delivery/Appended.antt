-- ===== src/Logger/Delivery/Appended.antt =====
-- What `dispatch` of src/logger.cpp gives the descriptor of a file that admits the record.
use simple_logger.Base.{
  ℕ, zero, suc, ◌+◌, ◌≤◌, ◌≡◌, ◌≢◌, refl, ap, subst, ◌∙◌, Bool, true, false, Option, none, some,
  List, [], ◌∷◌, ◌++◌, Bytes, arith, beq, beq_iff, drop, length, if_both, ◌>>=◌,
}
use simple_logger.Base.Int.{ℤ, pos, leb_ℤ}
use simple_logger.Level.{Level}
use simple_logger.Errors.{Errc, ErrorState, ErrorInfo, Call}
use simple_logger.Format.{FormatSpec, Record, SourceLoc, TimeText, build_line}
use simple_logger.Format.Lines.{IsClean, IsOneLine, build_line-IsOneLine}
use simple_logger.Os.{Os, Answer, interrupted, wrote, failed}
use simple_logger.Sink.{Written, all, error, looping, write_all}
use simple_logger.Sink.WriteAll.{WrittenWell, write_all-WrittenWell}
use simple_logger.RunDir.{Run}
use simple_logger.Logger.{Module, Logger}
use simple_logger.Logger.Files.{World, cached_pid, cached_tid, ensure_file_open}
use simple_logger.Logger.Admit.{state_of, file_admits, stdout_admits}
use simple_logger.Logger.Emit.{
  report_open, file_written, write_file, to_capture, file_output, stdout_written, stdout_output,
  stdout_turn, file_turn, gather, record_of, dispatch_with,
}
use simple_logger.Logger.Message.{k_max_line}
use simple_logger.Logger.Delivery.{
  round, write_all-kept, report-kept, report_open-kept, ensure_file_open-kept,
}
use simple_logger.Logger.Delivery.Ends.{
  Disk, IsGentle, few, handler_few, line_short, few_enough, dispatch-EndsWith, returned,
}

-- No write of some bytes to the descriptor fails.
abbrev pub NeverFails : Os → ℤ → Type 0
NeverFails os fd =
    (c : ℕ) (buf : Bytes) (s : os.State) (e : ℤ) → (os.write fd (c ∷ buf) s).0 ≢ failed e

abbrev IsNoError : Written → Type 0
IsNoError all = Unit
IsNoError (error e) = ⊥
IsNoError looping = Unit

write_all-IsNoError :
    (os : Os) (fd : ℤ)
    → NeverFails os fd
    → (fuel : ℕ) (buf : Bytes) (s : os.State) → IsNoError (write_all os fuel fd buf s).0
unfolding write_all
write_all-IsNoError os fd never zero [] s = tt
write_all-IsNoError os fd never (suc fuel) [] s = tt
write_all-IsNoError os fd never zero (c ∷ left) s = tt
write_all-IsNoError os fd never (suc fuel) (c ∷ left) s =
    rounds (λ buf s'. write_all-IsNoError os fd never fuel buf s') (os.write fd (c ∷ left) s).1
      (os.write fd (c ∷ left) s).0 refl
  where
    rounds :
        ((buf : Bytes) (s' : os.State) → IsNoError (write_all os fuel fd buf s').0)
        → (s' : os.State) (a : Answer) → (os.write fd (c ∷ left) s).0 ≡ a
        → IsNoError (round os fuel fd (c ∷ left) s' a).0
    rounds again s' interrupted e = again (c ∷ left) s'
    rounds again s' (failed err) e = absurd (never c left s err e)
    rounds again s' (wrote n) e = again (drop n (c ∷ left)) s'

module _ (os : Os) (tt_ : TimeText) (sort : List Run → List Run) (call : Call (Logger × os.State))
    (disk : Disk os) (gentle : IsGentle os disk call) (fd : ℤ) where
  abbrev pub contents : os.State → Bytes
  contents s = disk.posix.contents s fd

  -- The descriptor has been given `text`.
  abbrev pub given : Bytes → os.State → Bool
  given text s = beq (contents s) text

  handler_given :
      (text : Bytes) (h u : ℕ) (i : ErrorInfo) (e : ErrorState) (lg : Logger) (s : os.State)
      → given text s ≡ true
      → given text (call h u i (e, (lg, s))).1.1.1 ≡ true
  handler_given text h u i e lg s k = rw (gentle.still h u i e lg s fd) k

  -- If the call returns, the descriptor has been given `text`.
  abbrev pub Leaves : Bytes → Option (World os tt_ sort) → Type 0
  Leaves text none = Unit
  Leaves text (some w) = given text w.1.1 ≡ true

  file_written-Leaves :
      (text old line : Bytes) (ms : Module) (v : ℤ) (written : Written) (e : ErrorState)
      (lg : Logger) (s : os.State)
      → IsNoError written
      → WrittenWell old line written (contents s)
      → old ++ line ≡ text
      → Leaves text (file_written os tt_ sort call ms v fd written (e, (lg, s)))
  file_written-Leaves text old line ms v looping e lg s ok well same = tt
  file_written-Leaves text old line ms v (error werr) e lg s ok well same = absurd ok
  file_written-Leaves text old line ms v all e lg s ok well same =
      let here : given text s ≡ true = (beq_iff (contents s) text).1 (well ∙ same) in
      if_both (λ (w : Logger × os.State). given text w.1 ≡ true) (leb_ℤ v lg.flush_level) _ _
        (rw (disk.sync fd fd s) here) here

  stdout_written-Leaves :
      (text : Bytes) (written : Written) (w : World os tt_ sort)
      → given text w.1.1 ≡ true
      → Leaves text (stdout_written os tt_ sort call written w)
  stdout_written-Leaves text looping w h = tt
  stdout_written-Leaves text (error werr) w h =
      report-kept os tt_ sort call (given text) (handler_given text) Errc.stdout_write werr [] w h
  stdout_written-Leaves text all w h = h

  pub bind-Leaves :
      (text : Bytes) (o : Option (World os tt_ sort))
      (f : World os tt_ sort → Option (World os tt_ sort))
      → Leaves text o
      → ((w : World os tt_ sort) → given text w.1.1 ≡ true → Leaves text (f w))
      → Leaves text (o >>= f)
  bind-Leaves text none f h k = tt
  bind-Leaves text (some w) f h k = k w h

  module _ (other : fd ≢ pos 1) (never : NeverFails os fd) (real : leb_ℤ (pos 0) fd ≡ true)
      (fuel : ℕ) where
    pub stdout_turn-Leaves :
        (text key : Bytes) (fs : FormatSpec) (rec : Record) (w : World os tt_ sort)
        → given text w.1.1 ≡ true
        → Leaves text (stdout_turn os tt_ sort call fuel key fs rec w)
    unfolding stdout_turn stdout_output
    stdout_turn-Leaves text key fs rec (e, (lg, s)) h =
        let line = build_line tt_ fs rec lg.stdout_color k_max_line in
        let (written, s') = write_all os fuel (pos 1) line s in
        if_both (Leaves text) (stdout_admits (state_of key lg) rec.level.value) _ _
          (stdout_written-Leaves text written (e, (lg, s'))
            (write_all-kept os (given text) (pos 1)
              (λ buf s0 k. rw (disk.write_other (pos 1) fd buf s0 other) k) fuel line s h))
          h

    write_file-Leaves :
        (text old line : Bytes) (ms : Module) (v : ℤ) (w : World os tt_ sort)
        → disk.posix.contents w.1.1 fd ≡ old
        → old ++ line ≡ text
        → WrittenWell
            (contents w.1.1)
            line
            (write_all os fuel fd line w.1.1).0
            (contents (write_all os fuel fd line w.1.1).1)
        → Leaves text (write_file os tt_ sort call fuel ms v fd line w)
    unfolding write_file
    write_file-Leaves text old line ms v (e, (lg, s)) before same well =
        let (written, s') = write_all os fuel fd line s in
        rw real (
          file_written-Leaves text (contents s) line ms v written e lg s'
            (write_all-IsNoError os fd never fuel line s) well (ap (λ o. o ++ line) before ∙ same))

    to_capture-off :
        (on : Bool) (line : Bytes) (w : World os tt_ sort) (written : Option (World os tt_ sort))
        → on ≡ false
        → to_capture os tt_ sort call on line w written ≡ written
    to_capture-off true line w written e = cc
    to_capture-off false line w written e = refl

    module _ (n : ℕ) (enough : k_max_line + n ≤ fuel) where
      file_output-Leaves :
          (old line : Bytes) (ms : Module) (v : ℤ) (e : ErrorState) (lg : Logger) (s : os.State)
          → length line ≤ k_max_line
          → few os tt_ sort call disk gentle n s ≡ true
          → contents s ≡ old
          → lg.capture.on ≡ false
          → (ensure_file_open os tt_ sort ms (e, (lg, s))).0.0 ≡ fd
          → Leaves (old ++ line) (file_output os tt_ sort call fuel ms v line (e, (lg, s)))
      unfolding file_output
      file_output-Leaves old line ms v e lg s short quiet before off opens =
          let ((fd', oe), w) = ensure_file_open os tt_ sort ms (e, (lg, s)) in
          let w' = report_open os tt_ sort call oe w in
          let quiet' =
            report_open-kept os tt_ sort call (few os tt_ sort call disk gentle n)
              (handler_few os tt_ sort call disk gentle n) oe w
              (ensure_file_open-kept os tt_ sort (few os tt_ sort call disk gentle n) (disk.quiet n)
                ms e lg s quiet) in
          let before' = report_open-kept os tt_ sort call (given old) (handler_given old) oe w (
            ensure_file_open-kept os tt_ sort (given old) (disk.still fd old) ms e lg s
              ((beq_iff (contents s) old).1 before)) in
          rw (to_capture-off lg.capture.on line (e, (lg, s)) _ off, opens)
            (write_file-Leaves (old ++ line) old line ms v w' ((beq_iff _ old).0 before') refl (
              write_all-WrittenWell os disk.posix fuel fd line w'.1.1
                (few_enough os tt_ sort call disk gentle n fuel enough line w'.1.1 short quiet')))

      dispatch_with-Leaves :
          (key : Bytes) (level : Level) (loc : SourceLoc) (msg : Bytes) (fs : FormatSpec)
          (e : ErrorState) (lg : Logger) (s : os.State)
          → let got = gather os tt_ sort call key level loc msg fs (e, (lg, s)) in
            few os tt_ sort call disk gentle n s ≡ true
            → file_admits (state_of key lg) level.value ≡ true
            → lg.capture.on ≡ false
            → (ensure_file_open os tt_ sort (state_of key lg) got.1).0.0 ≡ fd
            → Leaves
                (contents s ++ build_line tt_ fs got.0 false k_max_line)
                (dispatch_with os tt_ sort call fuel key level loc msg fs (e, (lg, s)))
      unfolding dispatch_with gather cached_pid cached_tid file_turn record_of
      dispatch_with-Leaves key level loc msg fs e lg s quiet admits off opens =
          let got = gather os tt_ sort call key level loc msg fs (e, (lg, s)) in
          let line = build_line tt_ fs got.0 false k_max_line in
          bind-Leaves (contents s ++ line) _ _
            (rw admits (
              file_output-Leaves (contents s) line (state_of key lg) level.value e got.1.1.0 s
                (line_short os tt_ sort call disk gentle n fuel enough fs got.0 false) quiet refl
                off opens))
            (λ w' h. stdout_turn-Leaves (contents s ++ line) key fs got.0 w' h)

    pub given_back :
        (text : Bytes) (o : Option (World os tt_ sort)) (w : World os tt_ sort)
        → o ≡ some w
        → Leaves text o
        → contents w.1.1 ≡ text
    given_back text none w e h = cc
    given_back text (some v) w e h = (beq_iff (contents w.1.1) text).0 (subst (Leaves text) e h)

    -- A record that the module's file output admits, with the capture off and the module's file open or to
    -- be opened as `fd`, which is not stdout's: with enough fuel the call returns, and what `fd` has been
    -- given is what it had been given before with the record's line behind it, whole, whatever stdout and
    -- the handler do. Where the record has no newline in its parts, the line is one line.
    pub dispatch_with-appends :
        (key : Bytes) (level : Level) (loc : SourceLoc) (msg : Bytes) (fs : FormatSpec)
        (e : ErrorState) (lg : Logger) (s : os.State)
        → let got = gather os tt_ sort call key level loc msg fs (e, (lg, s)) in
          let line = build_line tt_ fs got.0 false k_max_line in
          k_max_line + disk.posix.pending s ≤ fuel
          → file_admits (state_of key lg) level.value ≡ true
          → lg.capture.on ≡ false
          → (ensure_file_open os tt_ sort (state_of key lg) got.1).0.0 ≡ fd
          → (w : World os tt_ sort) × (dispatch_with os tt_ sort call fuel key level loc msg fs
                (e, (lg, s))
              ≡ some w)
            × (disk.posix.contents w.1.1 fd ≡ disk.posix.contents s fd ++ line)
            × (IsClean tt_ fs got.0 → IsOneLine line)
    dispatch_with-appends key level loc msg fs e lg s enough admits off opens =
        let n = disk.posix.pending s in
        let got = gather os tt_ sort call key level loc msg fs (e, (lg, s)) in
        let line = build_line tt_ fs got.0 false k_max_line in
        let quiet : few os tt_ sort call disk gentle n s ≡ true = ground arith in
        let (w, is_w) = returned os tt_ sort call disk gentle n _ (
          dispatch-EndsWith os tt_ sort call disk gentle n fuel enough key level loc msg (some fs)
            (e, (lg, s)) quiet) in
        (
          w,
          is_w,
          given_back (contents s ++ line) _ w is_w
              (dispatch_with-Leaves n enough key level loc msg fs e lg s quiet admits off opens),
          λ clean.
              build_line-IsOneLine tt_ fs got.0 false k_max_line (omega arith) (omega arith) clean,
        )
