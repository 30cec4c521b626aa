-- ===== src/Macros/Calls/Site.antt =====
-- The call sites of the macros of include/slog/slog.h: the lookup of a site's module.
use simple_logger.Base.{◌≡◌, ◌≢◌, refl, Bool, true, false, Option, none, some, Bytes, arith}
use simple_logger.Base.Dict.{lookup}
use simple_logger.Logger.{Module, Logger}
use simple_logger.Logger.Reload.{resolve_module, add_module}
use simple_logger.Logger.Reload.Thresholds.{AllCurrent, resolve_module-IsCurrent}
use simple_logger.Logger.Admit.{CallSite, state_of, state_or}

-- A call site of the module `key`.
abbrev pub site : Bytes → Bool → CallSite
site key resolved = record { module_name = key; state = resolved }

-- The logger behind the lookup of a site's module, which a site makes once.
abbrev pub looked_up : Bytes → Bool → Logger → Logger
looked_up key true lg = lg
looked_up key false lg = (resolve_module key lg).1

known_here :
    (key : Bytes) (o : Option Module) (lg : Logger)
    → o ≢ none
    → state_or key o ≡ (add_module key o lg).0
known_here key none lg h = absurd (h refl)
known_here key (some ms) lg h = refl

-- A site that was resolved has its module in the logger.
abbrev pub IsKnown : Bytes → Bool → Logger → Type 0
IsKnown key true lg = lookup key lg.modules ≢ none
IsKnown key false lg = Unit

pub looked_up-state_of :
    (key : Bytes) (resolved : Bool) (lg : Logger)
    → IsKnown key resolved lg
    → AllCurrent lg.settings lg.modules
    → state_of key (looked_up key resolved lg) ≡ (resolve_module key lg).0
unfolding resolve_module
looked_up-state_of key true lg known current = known_here key (lookup key lg.modules) lg known
looked_up-state_of key false lg known current = (resolve_module-IsCurrent key lg current).2

-- The lookup leaves the format and the capture.
pub looked_up_same :
    (key : Bytes) (resolved : Bool) (lg : Logger)
    → let lg' = looked_up key resolved lg in (lg'.fmt_ptr ≡ lg.fmt_ptr) × (lg'.capture ≡ lg.capture)
unfolding resolve_module
looked_up_same key true lg = (refl, refl)
looked_up_same key false lg = ground arith
