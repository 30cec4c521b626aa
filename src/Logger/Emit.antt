-- ===== src/Logger/Emit.antt =====
-- The hot path of src/logger.cpp behind `should_log`: `emit` and what it calls.
use simple_logger.Base.{
  ℕ, ◌+◌, ◌%◌, ◌^◌, Bool, true, false, Option, none, some, List, [], Bytes, if◌then◌else◌, ◌>>=◌,
}
use simple_logger.Base.Int.{ℤ, pos, leb_ℤ}
use simple_logger.Level.{Level}
use simple_logger.Errors.{Errc, ErrorState, Call, report, record_error, count_drop}
use simple_logger.Format.{FormatSpec, Record, SourceLoc, TimeText, build_line}
use simple_logger.Os.{Os}
use simple_logger.Sink.{
  Written, all, error, looping, write_all, mem_capture_active, mem_capture_add,
}
use simple_logger.RunDir.{Run}
use simple_logger.Logger.{Module, Logger, OpenErr}
use simple_logger.Logger.Reload.{resolve_module}
use simple_logger.Logger.Files.{World, cached_pid, cached_tid, ensure_file_open}
use simple_logger.Logger.Message.{k_max_line, format_text, message_of, flatten}
use simple_logger.Logger.Admit.{CallSite, state_of, file_admits, stdout_admits, resolve_site}

module _ (os : Os) (tt_ : TimeText) (sort : List Run → List Run)
    (call : Call (Logger × os.State)) where
  -- `report`, unless there is no error.
  abbrev pub report_open : OpenErr → World os tt_ sort → World os tt_ sort
  report_open oe w = elim oe.code [ Errc.ok ↦ w | _ ↦ report call oe.code oe.err oe.detail w ]

  -- The rest of the file output, behind `write_all`.
  abbrev pub file_written :
      Module → ℤ → ℤ → Written → World os tt_ sort → Option (World os tt_ sort)
  file_written ms v fd looping w = none
  file_written ms v fd (error werr) w =
      let (e, r) = report call Errc.file_write werr ms.display w in some (count_drop e, r)
  file_written ms v fd all (e, (lg, s)) = some (
    e,
    if leb_ℤ v lg.flush_level
        then (record lg { flush_count = (lg.flush_count + 1) % 2 ^ 64 }, os.fdatasync fd s)
        else (lg, s),
  )

  -- A line to the descriptor of the module's file; there is none for a negative one.
  unfoldable pub write_file :
      ℕ → Module → ℤ → ℤ → Bytes → World os tt_ sort → Option (World os tt_ sort)
  write_file fuel ms v fd line (e, (lg, s)) =
      let (written, s') = write_all os fuel fd line s in
      let done = file_written ms v fd written (e, (lg, s')) in
      if leb_ℤ (pos 0) fd then done else some (e, (lg, s))

  -- `if (mem_capture_active()) mem_capture_add(…); else …`
  abbrev pub to_capture :
      Bool → Bytes → World os tt_ sort → Option (World os tt_ sort) → Option (World os tt_ sort)
  to_capture true line (e, (lg, s)) written =
      some (e, (record lg { capture = mem_capture_add line lg.capture }, s))
  to_capture false line w written = written

  -- What is written behind `ensure_file_open`, its error reported first.
  abbrev pub write_opened :
      ℕ → Module → ℤ → Bytes → (ℤ × OpenErr) × World os tt_ sort → Option (World os tt_ sort)
  write_opened fuel ms v line ((fd, oe), w) = write_file fuel ms v fd line (report_open oe w)

  -- The file output of `dispatch`, for a level that the file admits.
  unfoldable pub file_output :
      ℕ → Module → ℤ → Bytes → World os tt_ sort → Option (World os tt_ sort)
  file_output fuel ms v line (e, (lg, s)) =
      to_capture (mem_capture_active lg.capture) line (e, (lg, s))
        (write_opened fuel ms v line (ensure_file_open os tt_ sort ms (e, (lg, s))))

  -- The rest of the stdout output, behind `write_all`.
  abbrev pub stdout_written : Written → World os tt_ sort → Option (World os tt_ sort)
  stdout_written looping w = none
  stdout_written (error werr) w =
      let (e, r) = report call Errc.stdout_write werr [] w in some (count_drop e, r)
  stdout_written all w = some w

  unfoldable pub stdout_output : ℕ → Bytes → World os tt_ sort → Option (World os tt_ sort)
  stdout_output fuel line (e, (lg, s)) =
      let (written, s') = write_all os fuel (pos 1) line s in stdout_written written (e, (lg, s'))

  unfoldable pub record_of : Module → Level → SourceLoc → Bytes → ℤ → Logger → Record
  record_of ms level loc msg now lg = record {
    level = level;
    module_name = ms.display;
    loc = loc;
    msg = msg;
    pid = lg.pid;
    tid = lg.tid;
    now_epoch_ns = now;
  }

  -- The stdout output of `dispatch`. Its thresholds and the color are read here, behind the file output
  -- and what a handler did meanwhile.
  unfoldable pub stdout_turn :
      ℕ → Bytes → FormatSpec → Record → World os tt_ sort → Option (World os tt_ sort)
  stdout_turn fuel key fs rec w =
      let lg = w.1.0 in
      if stdout_admits (state_of key lg) rec.level.value
      then stdout_output fuel (build_line tt_ fs rec lg.stdout_color k_max_line) w
      else some w

  -- The file output of `dispatch`.
  unfoldable pub file_turn :
      ℕ → Bytes → FormatSpec → Record → World os tt_ sort → Option (World os tt_ sort)
  file_turn fuel key fs rec w =
      let ms = state_of key w.1.0 in
      if file_admits ms rec.level.value
      then file_output fuel ms rec.level.value (build_line tt_ fs rec false k_max_line) w
      else some w

  -- The record of a call, with the caches of the process's and the thread's id filled.
  unfoldable pub gather :
      Bytes
      → Level
      → SourceLoc
      → Bytes
      → FormatSpec
      → World os tt_ sort
      → Record × World os tt_ sort
  gather key level loc msg fs (e, (lg0, s0)) =
      let (lg, s) = cached_tid os tt_ sort (cached_pid os tt_ sort (lg0, s0)) in
      (
        record_of (state_of key lg0) level loc msg (if fs.needs_time then os.wall_now s else pos 0)
            lg,
        (e, (lg, s)),
      )

  -- `dispatch` for the published spec.
  unfoldable pub dispatch_with :
      ℕ
      → Bytes
      → Level
      → SourceLoc
      → Bytes
      → FormatSpec
      → World os tt_ sort
      → Option (World os tt_ sort)
  dispatch_with fuel key level loc msg fs w =
      let (rec, w0) = gather key level loc msg fs w in
      do w1 ← file_turn fuel key fs rec w0; stdout_turn fuel key fs rec w1

  abbrev pub dispatch_published :
      ℕ
      → Bytes
      → Level
      → SourceLoc
      → Bytes
      → Option FormatSpec
      → World os tt_ sort
      → Option (World os tt_ sort)
  dispatch_published fuel key level loc msg none w = some w
  dispatch_published fuel key level loc msg (some fs) w = dispatch_with fuel key level loc msg fs w

  unfoldable pub dispatch :
      ℕ → Bytes → Level → SourceLoc → Bytes → World os tt_ sort → Option (World os tt_ sort)
  dispatch fuel key level loc msg w = dispatch_published fuel key level loc msg w.1.0.fmt_ptr w

  -- `record(errc::message_truncated, 0, ms.display.c_str())`
  abbrev pub note_cut : Bool → Bytes → ErrorState → ErrorState
  note_cut true display e = record_error Errc.message_truncated (pos 0) display e
  note_cut false display e = e

  unfoldable pub format_and_dispatch :
      (Bytes → Option Bytes)
      → ℕ
      → Bytes
      → Level
      → SourceLoc
      → Option Bytes
      → World os tt_ sort
      → Option (World os tt_ sort)
  format_and_dispatch printf fuel key level loc fmt (e, (lg, s)) =
      let (msg, cut) = message_of (printf (format_text fmt)) in
      dispatch fuel key level loc (flatten msg) (note_cut cut (state_of key lg).display e, (lg, s))

  unfoldable pub emit :
      (Bytes → Option Bytes)
      → ℕ
      → CallSite
      → Level
      → SourceLoc
      → Option Bytes
      → World os tt_ sort
      → Option (CallSite × World os tt_ sort)
  emit printf fuel cs level loc fmt (e, (lg, s)) =
      let (cs', lg') = resolve_site cs lg in
      do
        w ← format_and_dispatch printf fuel cs.module_name level loc fmt (e, (lg', s))
        some (cs', w)

  unfoldable pub emit_to :
      (Bytes → Option Bytes)
      → ℕ
      → Bytes
      → Level
      → SourceLoc
      → Option Bytes
      → World os tt_ sort
      → Option (World os tt_ sort)
  emit_to printf fuel key level loc fmt (e, (lg, s)) =
      format_and_dispatch printf fuel key level loc fmt (e, ((resolve_module key lg).1, s))
