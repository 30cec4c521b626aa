-- ===== src/Macros.antt =====
-- The rate limits of include/slog/slog.h: what a call site's counter lets through. A site's counter is
-- one atomic number, so the calls of all threads are one sequence of steps.
pub mod Limits
pub mod Race
pub mod Calls
use mathlib.Core.Bool.{◌||◌, ◌&&◌}
use simple_logger.Base.{
  ℕ, zero, suc, ◌+◌, ◌-◌, ◌%◌, ◌^◌, Bool, true, false, Option, none, some, List, [], ◌∷◌, ltb, leb,
  ◌==◌, if◌then◌else◌,
}
use simple_logger.Base.Int.{ℤ, pos, negsuc, ltb_ℤ, leb_ℤ, eqb_ℤ, ◌-ℤ◌, pos_part}
use simple_logger.Level.{level_debug}

-- `SLOG_LEVEL_X <= SLOG_ACTIVE_LEVEL`: whether a built-in level's macro is compiled to a call.
unfoldable pub compiled : ℤ → ℤ → Bool
compiled level active = leb_ℤ level active

abbrev pub k_word : ℕ
k_word = 2 ^ 64

-- One call of `SLOG_LOG_EVERY_N`: whether it logs, and the counter. The division is one of 64-bit
-- numbers; the test on N comes first.
unfoldable pub every_n : ℤ → ℕ → Bool × ℕ
every_n n counter =
    if ltb_ℤ (pos 0) n
    then (counter % pos_part n == 0, (counter + 1) % k_word)
    else (false, counter)

-- One call of `SLOG_LOG_FIRST_N`
unfoldable pub first_n : ℤ → ℕ → Bool × ℕ
first_n n counter =
    if ltb_ℤ (pos 0) n then (ltb counter (pos_part n), (counter + 1) % k_word) else (false, counter)

-- `SLOG_LOG_ONCE`
abbrev pub once : ℕ → Bool × ℕ
once counter = first_n (pos 1) counter

-- INT64_MIN
abbrev pub never : ℤ
never = negsuc (2 ^ 63 - 1)

-- One call of `SLOG_LOG_EVERY_N_SEC` at the time `now`: `last` is what `_slog_last` holds and `prev`
-- what was read of it before, which another thread may have changed since.
unfoldable pub every_sec : ℤ → ℤ → ℤ → ℤ → Bool × ℤ
every_sec gap now prev last =
    if (eqb_ℤ prev never || leb_ℤ gap (now -ℤ prev)) && eqb_ℤ prev last
    then (true, now)
    else (false, last)

-- A site's calls, one after another: how many of them log, and the counter.
unfoldable pub run : (ℕ → Bool × ℕ) → ℕ → ℕ → List Bool
run step zero counter = []
run step (suc calls) counter =
    let (fires, counter') = step counter in fires ∷ run step calls counter'

-- The times at which a site logs, for calls at the given times by threads that do not overlap.
unfoldable pub fire_times : ℤ → List ℤ → ℤ → List ℤ
fire_times gap [] last = []
fire_times gap (now ∷ times) last =
    let (fires, last') = every_sec gap now last last in
    let rest = fire_times gap times last' in if fires then now ∷ rest else rest
