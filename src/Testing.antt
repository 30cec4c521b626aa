-- ===== src/Testing.antt =====
-- The test hooks of include/slog/testing.h that src/logger.cpp has: the clocks that a test can put in
-- the place of the real ones, the reset, and the counters. Those of the memory capture are in Sink.
pub mod Reset
use simple_logger.Base.{ℕ, Option, none, some, List, length}
use simple_logger.Base.Int.{ℤ}
use simple_logger.Format.{TimeText}
use simple_logger.Os.{Os}
use simple_logger.Sink.{mem_capture_reset}
use simple_logger.RunDir.{Run}
use simple_logger.Logger.{Logger}
use simple_logger.Logger.Files.{World}
use simple_logger.Logger.Life.{do_reset}

-- `format_spec_count` and `flush_count`
unfoldable pub format_spec_count : Logger → ℕ
format_spec_count lg = length lg.specs

abbrev pub flush_count : Logger → ℕ
flush_count lg = lg.flush_count

-- The steady clock is `steady`.
module _ (os : Os) (steady : os.State → ℤ) where
  -- `g_wall` and `g_mono`
  pub record Clocks : Type 0 where
    pub wall : os.State → ℤ
    pub mono : os.State → ℤ

  abbrev pub start_clocks : Clocks
  start_clocks = record { wall = os.wall_now; mono = steady }

  -- `fn != nullptr ? fn : …`
  abbrev pub or_default : Option (os.State → ℤ) → (os.State → ℤ) → os.State → ℤ
  or_default none real = real
  or_default (some fn) real = fn

  unfoldable pub set_clock : Option (os.State → ℤ) → Clocks → Clocks
  set_clock fn c = record c { wall = or_default fn os.wall_now }

  unfoldable pub reset_clock : Clocks → Clocks
  reset_clock c = record c { wall = os.wall_now }

  unfoldable pub set_mono_clock : Option (os.State → ℤ) → Clocks → Clocks
  set_mono_clock fn c = record c { mono = or_default fn steady }

  unfoldable pub reset_mono_clock : Clocks → Clocks
  reset_mono_clock c = record c { mono = steady }

  -- `wall_now` and `mono_nanos`
  abbrev pub wall_now : Clocks → os.State → ℤ
  wall_now c s = c.wall s

  abbrev pub mono_nanos : Clocks → os.State → ℤ
  mono_nanos c s = c.mono s

  -- The system as the logger sees it.
  abbrev pub clocked : Clocks → Os
  clocked c = record os { wall_now = c.wall }

  module _ (tt_ : TimeText) (sort : List Run → List Run) where
    unfoldable pub reset : Clocks × World os tt_ sort → Clocks × World os tt_ sort
    reset (c, (e, (lg, s))) =
        let c' = reset_mono_clock (reset_clock c) in
        (
          c',
          do_reset os (wall_now c' s)
              (e, (record lg { capture = mem_capture_reset lg.capture }, s)),
        )
