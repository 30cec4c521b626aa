-- ===== src/Logger/Admit.antt =====
-- `should_log` and `is_enabled` of src/logger.cpp, and the tests of a record against a module's levels.
use mathlib.Core.Bool.{not, ◌&&◌}
use simple_logger.Base.{Bool, true, false, Option, none, some, Bytes, if◌then◌else◌}
use simple_logger.Base.Dict
use simple_logger.Base.Int.{ℤ, leb_ℤ, eqb_ℤ}
use simple_logger.Level.{k_off}
use simple_logger.Logger.{Module, Logger, new_module}
use simple_logger.Logger.Reload.{resolve_module, display_of}

-- A call site: its module, and whether the module's state was resolved.
pub record CallSite : Type 0 where
  pub module_name : Bytes
  pub state : Bool

-- The state of a module that was resolved; the logger never drops one.
abbrev pub state_or : Bytes → Option Module → Module
state_or key none = new_module key (display_of key)
state_or key (some ms) = ms

abbrev pub state_of : Bytes → Logger → Module
state_of key lg = state_or key (Dict.lookup key lg.modules)

-- `level.value <= flvl`
abbrev pub file_admits : Module → ℤ → Bool
file_admits ms v = leb_ℤ v ms.file_level

-- `slvl != kOff && pass`
abbrev pub stdout_admits : Module → ℤ → Bool
stdout_admits ms v =
    not (eqb_ℤ ms.stdout_level k_off)
    && (if ms.stdout_only then eqb_ℤ v ms.stdout_level else leb_ℤ v ms.stdout_level)

-- The state that a call site's module has, resolved if it was not.
unfoldable pub resolve_site : CallSite → Logger → CallSite × Logger
resolve_site cs lg =
    if cs.state
    then (cs, lg)
    else (record cs { state = true }, (resolve_module cs.module_name lg).1)

-- The answer, by `g_disabled`, for the site as it was and as it is resolved.
abbrev pub answer : Bool → CallSite → ℤ → Logger → CallSite × Logger → Bool × (CallSite × Logger)
answer true cs v lg resolved = (false, (cs, lg))
answer false cs v lg resolved =
    (leb_ℤ v (state_of cs.module_name resolved.1).collect_level, resolved)

unfoldable pub should_log : CallSite → ℤ → Logger → Bool × (CallSite × Logger)
should_log cs v lg = answer lg.disabled cs v lg (resolve_site cs lg)

-- A null module is the empty text.
unfoldable pub is_enabled : Bytes → ℤ → Logger → Bool × Logger
is_enabled key v lg =
    let (ms, lg') = resolve_module key lg in
    if lg.disabled then (false, lg) else (leb_ℤ v ms.collect_level, lg')
