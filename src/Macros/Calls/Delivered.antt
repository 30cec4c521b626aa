-- ===== src/Macros/Calls/Delivered.antt =====
-- What a log macro of include/slog/slog.h gives a module's file, by the policy of the logger's settings.
use mathlib.Core.Bool.{not, ◌&&◌}
use simple_logger.Base.{
  ℕ, ◌+◌, ◌≤◌, ◌≡◌, ◌≢◌, refl, sym, ap, subst, ◌∙◌, Bool, true, false, Option, some, List, Bytes,
  Bool-cases, inl, inr, if◌then◌else◌, ◌>>=◌,
}
use simple_logger.Base.Int.{ℤ, pos, leb_ℤ}
use simple_logger.Level.{Level, Registry}
use simple_logger.Errors.{ErrorState, Call}
use simple_logger.Format.{SourceLoc, TimeText, FormatSpec, Record, build_line, parse_format}
use simple_logger.Os.{Os}
use simple_logger.Sink.{Capture}
use simple_logger.RunDir.{Run}
use simple_logger.Logger.{Logger}
use simple_logger.Logger.Reload.Thresholds.{
  IsCollected, collect_filters, resolve_module-IsCurrent, current-IsCollected,
}
use simple_logger.Logger.Files.{World, ensure_file_open}
use simple_logger.Logger.Admit.{CallSite, state_of, file_admits, should_log, resolve_site}
use simple_logger.Logger.Emit.{
  gather, emit, format_and_dispatch, dispatch, dispatch_published, dispatch_with, note_cut,
}
use simple_logger.Logger.Message.{k_max_line, message_of, format_text, flatten}
use simple_logger.Logger.State.{IsWellFormed, Layers}
use simple_logger.Logger.Policy.{policy_of, to_file, settings_of}
use simple_logger.Logger.Policy.Verdict.{well_formed-Obeys}
use simple_logger.Logger.Delivery.Ends.{Disk, IsGentle}
use simple_logger.Logger.Delivery.Appended.{NeverFails}
use simple_logger.Logger.Delivery.Delivered.{after, dispatch_with-after}
use simple_logger.Macros.Calls.{slog_emit}
use simple_logger.Macros.Calls.Site.{site, looked_up, IsKnown, looked_up-state_of, looked_up_same}

module _ (os : Os) (tt_ : TimeText) (sort : List Run → List Run) (disk : Disk os) (fd : ℤ) where
  -- A call has a result, and the descriptor has been given `text` behind it.
  abbrev pub Gives : Option (CallSite × World os tt_ sort) → Bytes → Type 0
  Gives o text =
      (res : CallSite × World os tt_ sort) × (o ≡ some res)
      × (disk.posix.contents res.1.1.1 fd ≡ text)

module _ (os : Os) (tt_ : TimeText) (sort : List Run → List Run) (call : Call (Logger × os.State))
    (printf : Bytes → Option Bytes) (level : Level) (loc : SourceLoc) (fmt : Option Bytes)
    (key : Bytes) where
  abbrev pub record_text : Bytes
  record_text = flatten (message_of (printf (format_text fmt))).0

  -- The errors behind the formatting of the message.
  abbrev pub noted : ErrorState → Logger → ErrorState
  noted e lg =
      note_cut os tt_ sort call (message_of (printf (format_text fmt))).1 (state_of key lg).display
        e

  abbrev pub gathered : ErrorState → Logger → os.State → FormatSpec → Record × World os tt_ sort
  gathered e lg s fs = gather os tt_ sort call key level loc record_text fs (noted e lg, (lg, s))

  abbrev pub line_of : ErrorState → Logger → os.State → FormatSpec → Bytes
  line_of e lg s fs = build_line tt_ fs (gathered e lg s fs).0 false k_max_line

  module _ (fuel : ℕ) where
    -- What `SLOG_EMIT` does behind the lookup, for a logger that is on.
    abbrev admitted : ErrorState → Logger → os.State → Option (CallSite × World os tt_ sort)
    admitted e lg s =
        if leb_ℤ level.value (state_of key lg).collect_level
        then emit os tt_ sort call printf fuel (site key true) level loc fmt (e, (lg, s))
        else some (site key true, (e, (lg, s)))

    slog_emit-admitted :
        (resolved : Bool) (e : ErrorState) (lg : Logger) (s : os.State)
        → lg.disabled ≡ false
        → slog_emit os tt_ sort call printf fuel level loc
            (λ w. (fmt, w))
            (site key resolved)
            (e, (lg, s))
          ≡ admitted e (looked_up key resolved lg) s
    unfolding slog_emit should_log resolve_site
    slog_emit-admitted true e lg s on = rw on refl
    slog_emit-admitted false e lg s on = rw on refl

    slog_emit-disabled :
        (resolved : Bool) (e : ErrorState) (lg : Logger) (s : os.State)
        → lg.disabled ≡ true
        → slog_emit os tt_ sort call printf fuel level loc
            (λ w. (fmt, w))
            (site key resolved)
            (e, (lg, s))
          ≡ some (site key resolved, (e, (lg, s)))
    unfolding slog_emit should_log resolve_site
    slog_emit-disabled resolved e lg s off = rw off refl

    emit-dispatch_with :
        (e : ErrorState) (lg : Logger) (s : os.State) (fs : FormatSpec) (w : World os tt_ sort)
        → lg.fmt_ptr ≡ some fs
        → dispatch_with os tt_ sort call fuel key level loc record_text fs (noted e lg, (lg, s))
          ≡ some w
        → emit os tt_ sort call printf fuel (site key true) level loc fmt (e, (lg, s))
          ≡ some (site key true, w)
    unfolding emit resolve_site format_and_dispatch dispatch
    emit-dispatch_with e lg s fs w published same =
        let back = λ (o : Option (World os tt_ sort)). o >>= (λ v. some (site key true, v)) in
        ap
          (λ o. back (
            dispatch_published os tt_ sort call fuel key level loc record_text o
              (noted e lg, (lg, s))))
          published
        ∙ ap back same

    module _ (disk : Disk os) (gentle : IsGentle os disk call) (fd : ℤ) (other : fd ≢ pos 1)
        (never : NeverFails os fd) (real : leb_ℤ (pos 0) fd ≡ true) where
      admitted-Gives :
          (e : ErrorState) (lg : Logger) (s : os.State) (fs : FormatSpec)
          → IsCollected (state_of key lg)
          → lg.fmt_ptr ≡ some fs
          → k_max_line + disk.posix.pending s ≤ fuel
          → lg.capture.on ≡ false
          → (ensure_file_open os tt_ sort (state_of key lg) (gathered e lg s fs).1).0.0 ≡ fd
          → Gives os tt_ sort disk fd (admitted e lg s) (
              after
                (file_admits (state_of key lg) level.value)
                (disk.posix.contents s fd)
                (line_of e lg s fs))
      admitted-Gives e lg s fs collected published enough off opens =
          elim (Bool-cases (leb_ℤ level.value (state_of key lg).collect_level)) [
            | inl wanted ↦
                let (w, is_w, given) =
                  dispatch_with-after os tt_ sort call disk gentle fd other never real fuel key
                    level loc record_text fs (noted e lg) lg s enough off opens in
                (
                  (site key true, w),
                  rw wanted (emit-dispatch_with e lg s fs w published is_w),
                  given,
                )
            | inr unwanted ↦
                let shut = (collect_filters (state_of key lg) level.value collected unwanted).0 in
                ((site key true, (e, (lg, s))), rw unwanted refl, rw shut refl)
          ]

      -- A call of `SLOG_EMIT` over a well-formed logger, with the capture off, arguments that change nothing
      -- and the module's file open or to be opened as `fd`, which is not stdout's: with enough fuel it
      -- returns, and what `fd` has been given is what it had been given before, with the record's line
      -- behind it exactly if the policy of the logger's layers sends the record to the file.
      pub slog_emit-after :
          (r : Registry) (l : Layers) (resolved : Bool) (e : ErrorState) (lg : Logger)
          (s : os.State)
          → let lg' = looked_up key resolved lg in
            let fs =
              parse_format lg.settings.format lg.settings.enable_time lg.settings.enable_elapsed
                lg.start_epoch_ns in
            let p = policy_of r l in
            IsWellFormed r l lg
            → IsKnown key resolved lg
            → k_max_line + disk.posix.pending s ≤ fuel
            → lg.capture.on ≡ false
            → (ensure_file_open os tt_ sort (state_of key lg') (gathered e lg' s fs).1).0.0 ≡ fd
            → Gives os tt_ sort disk fd
                (slog_emit os tt_ sort call printf fuel level loc
                  (λ w. (fmt, w))
                  (site key resolved)
                  (e, (lg, s)))
                (after
                  (not (settings_of p).disabled && to_file p key level.value)
                  (disk.posix.contents s fd)
                  (line_of e lg' s fs))
      slog_emit-after r l resolved e lg s formed known enough off opens =
          let lg' = looked_up key resolved lg in
          let fs =
            parse_format lg.settings.format lg.settings.enable_time lg.settings.enable_elapsed
              lg.start_epoch_ns in
          let p = policy_of r l in
          let (off_same, obeys) = well_formed-Obeys r l lg formed in
          let current = formed.0.current in
          let here = looked_up-state_of key resolved lg known current in
          let same = looked_up_same key resolved lg in
          let admits : file_admits (state_of key lg') level.value ≡ to_file p key level.value =
            ap (λ ms. file_admits ms level.value) here ∙ (obeys key level.value).0 in
          let by_policy : (b : Bool)
              → (settings_of p).disabled ≡ b
              → after (not (settings_of p).disabled && to_file p key level.value)
                  (disk.posix.contents s fd) (line_of e lg' s fs)
                ≡ after (not b && to_file p key level.value) (disk.posix.contents s fd)
                    (line_of e lg' s fs) =
            λ b. ap (λ d.
              after (not d && to_file p key level.value) (disk.posix.contents s fd)
                (line_of e lg' s fs)) in
          elim (Bool-cases lg.disabled) [
            | inl disabled ↦ (
              (site key resolved, (e, (lg, s))),
              slog_emit-disabled resolved e lg s disabled,
              sym (by_policy true (sym off_same ∙ disabled)),
            )
            | inr on ↦
                let collected : IsCollected (state_of key lg') = subst IsCollected (sym here) (
                  current-IsCollected lg.settings key _
                    (resolve_module-IsCurrent key lg current).0) in
                let (res, is_res, given) =
                  admitted-Gives e lg' s fs collected (same.0 ∙ formed.0.published) enough
                    (ap (λ (c : Capture). c.on) same.1 ∙ off) opens in
                (
                  res,
                  slog_emit-admitted resolved e lg s on ∙ is_res,
                  given
                      ∙ (ap (λ b. after b (disk.posix.contents s fd) (line_of e lg' s fs)) admits
                          ∙ sym (by_policy false (sym off_same ∙ on))),
                )
          ]
