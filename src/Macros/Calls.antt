-- ===== src/Macros/Calls.antt =====
-- The log macros of include/slog/slog.h: what a call site's statics and the world become. The evaluation
-- of the message's arguments is a step of the world of its own, `args`, that gives the format.
pub mod Site
pub mod Delivered
use simple_logger.Base.{ℕ, Bool, true, false, Option, none, some, List, Bytes, if◌then◌else◌, ◌>>=◌}
use simple_logger.Base.Int.{ℤ}
use simple_logger.Level.{Level}
use simple_logger.Errors.{Call}
use simple_logger.Format.{SourceLoc, TimeText}
use simple_logger.Os.{Os}
use simple_logger.RunDir.{Run}
use simple_logger.Macros.{compiled, every_n, first_n, every_sec}
use simple_logger.Logger.{Logger}
use simple_logger.Logger.Files.{World}
use simple_logger.Logger.Admit.{CallSite, should_log, is_enabled}
use simple_logger.Logger.Emit.{emit, emit_to}

module _ (os : Os) (tt_ : TimeText) (sort : List Run → List Run) (call : Call (Logger × os.State))
    (printf : Bytes → Option Bytes) (fuel : ℕ) (level : Level) (loc : SourceLoc)
    (args : World os tt_ sort → Option Bytes × World os tt_ sort) where
  -- `SLOG_EMIT`, with the static call site
  unfoldable pub slog_emit : CallSite → World os tt_ sort → Option (CallSite × World os tt_ sort)
  slog_emit cs (e, (lg, s)) =
      let (said, (cs', lg')) = should_log cs level.value lg in
      if said
      then (let (fmt, w) = args (e, (lg', s)) in
          emit os tt_ sort call printf fuel cs' level loc fmt w)
      else some (cs', (e, (lg', s)))

  -- `SLOG_ERROR`, `SLOG_WARNING`, `SLOG_INFO` and `SLOG_DEBUG`, by the level that is active
  unfoldable pub slog_level :
      ℤ → CallSite → World os tt_ sort → Option (CallSite × World os tt_ sort)
  slog_level active cs w = if compiled level.value active then slog_emit cs w else some (cs, w)

  -- `SLOG_LOG_TO`
  unfoldable pub slog_log_to : Bytes → World os tt_ sort → Option (World os tt_ sort)
  slog_log_to key (e, (lg, s)) =
      let (said, lg') = is_enabled key level.value lg in
      if said
      then (let (fmt, w) = args (e, (lg', s)) in
          emit_to os tt_ sort call printf fuel key level loc fmt w)
      else some (e, (lg', s))

  -- A rate limit in front of `SLOG_EMIT`, with its static number.
  unfoldable pub limited :
      {C : Type 0}
      → Bool × C
      → CallSite
      → World os tt_ sort
      → Option ((C × CallSite) × World os tt_ sort)
  limited (fires, c) cs w =
      if fires then (do (cs', w') ← slog_emit cs w; some ((c, cs'), w')) else some ((c, cs), w)

  -- `SLOG_LOG_EVERY_N`, `SLOG_LOG_FIRST_N` and `SLOG_LOG_ONCE`
  unfoldable pub slog_log_every_n :
      ℤ → ℕ × CallSite → World os tt_ sort → Option ((ℕ × CallSite) × World os tt_ sort)
  slog_log_every_n n (counter, cs) w = limited (every_n n counter) cs w

  unfoldable pub slog_log_first_n :
      ℤ → ℕ × CallSite → World os tt_ sort → Option ((ℕ × CallSite) × World os tt_ sort)
  slog_log_first_n n (counter, cs) w = limited (first_n n counter) cs w

  -- `SLOG_LOG_EVERY_N_SEC` at the time `now`
  unfoldable pub slog_log_every_n_sec :
      ℤ → ℤ → ℤ × CallSite → World os tt_ sort → Option ((ℤ × CallSite) × World os tt_ sort)
  slog_log_every_n_sec gap now (last, cs) w = limited (every_sec gap now last last) cs w
