-- ===== src/Logger/State/Ending.antt =====
-- The end, the restart, the reset and the reload of src/logger.cpp's logger, on a well-formed one.
use simple_logger.Base.{
  ◌≡◌, refl, ◌∙◌, Bool, true, false, Option, none, some, List, [], ◌∷◌, Bytes, All,
}
use simple_logger.Base.Dict.{Dict, lookup}
use simple_logger.Base.Int.{ℤ}
use simple_logger.Level.{Registry}
use simple_logger.Errors.{ErrorState, reset_errors}
use simple_logger.Os.{Os}
use simple_logger.Config.{Settings}
use simple_logger.Logger.{Module, Logger, not_opened, gave_up}
use simple_logger.Logger.Files.{clear_crash_fds}
use simple_logger.Logger.Life.{
  store_all, shutdown_open, do_shutdown, do_restart_after_fork, do_reset, forget_files,
}
use simple_logger.Logger.Reload.{
  compute_module, compute_modules, reload_locked, install, publish_spec, resolve_module, add_module,
}
use simple_logger.Logger.Reload.Cache.{IsLong}
use simple_logger.Logger.State.{
  configuration, descriptors, is_held, IsHeldBy, IsConfigured, IsHolding, IsWellFormed, Layers,
  layers_of,
}
use simple_logger.Logger.State.Configured.{
  store_all-AllCurrent, reload_locked-IsConfigured, resolve_module-IsConfigured,
}
use simple_logger.Logger.State.Held.{insert-IsHeldBy}

store_all-IsHeldBy :
    (fds : List ℤ) (fd : ℤ) (modules : Dict Module)
    → is_held fds fd ≡ true
    → All (IsHeldBy fds) (store_all fd modules)
unfolding store_all
store_all-IsHeldBy fds fd [] h = tt
store_all-IsHeldBy fds fd ((k, ms) ∷ modules) h = (h, store_all-IsHeldBy fds fd modules h)

compute_modules-IsHeldBy :
    (fds : List ℤ) (s : Settings) (modules : Dict Module)
    → All (IsHeldBy fds) modules
    → All (IsHeldBy fds) (compute_modules s modules)
unfolding compute_modules compute_module
compute_modules-IsHeldBy fds s [] h = tt
compute_modules-IsHeldBy fds s ((k, ms) ∷ modules) h =
    (h.0, compute_modules-IsHeldBy fds s modules h.1)

-- Whatever a reload makes of the settings, the descriptors stay those of open files.
pub reload_locked-IsHolding :
    (tty : Bool) (e : ErrorState) (lg : Logger)
    → IsHolding (descriptors lg)
    → IsHolding (descriptors (reload_locked tty e lg).1)
unfolding reload_locked install publish_spec
reload_locked-IsHolding tty e lg h = record {
  shared = h.shared;
  kept = compute_modules-IsHeldBy lg.open_fds _ lg.modules h.kept;
  counted = h.counted;
  mirrored = h.mirrored;
}

pub reload_locked-layers :
    (tty : Bool) (e : ErrorState) (lg : Logger)
    → layers_of (reload_locked tty e lg).1 ≡ layers_of lg
unfolding reload_locked install publish_spec
reload_locked-layers tty e lg = refl

add_module-IsHolding :
    (key : Bytes) (o : Option Module) (lg : Logger)
    → IsHolding (descriptors lg)
    → IsHolding (descriptors (add_module key o lg).1)
unfolding compute_module
add_module-IsHolding key (some ms) lg h = h
add_module-IsHolding key none lg h = record {
  shared = h.shared;
  kept = insert-IsHeldBy lg.open_fds key _ lg.modules refl h.kept;
  counted = h.counted;
  mirrored = h.mirrored;
}

add_module-layers :
    (key : Bytes) (o : Option Module) (lg : Logger)
    → layers_of (add_module key o lg).1 ≡ layers_of lg
add_module-layers key (some ms) lg = refl
add_module-layers key none lg = refl

pub resolve_module-IsWellFormed :
    (r : Registry) (l : Layers) (key : Bytes) (lg : Logger)
    → IsWellFormed r l lg
    → IsWellFormed r l (resolve_module key lg).1
unfolding resolve_module
resolve_module-IsWellFormed r l key lg (c, d, same) = (
  resolve_module-IsConfigured lg c key,
  add_module-IsHolding key (lookup key lg.modules) lg d,
  add_module-layers key (lookup key lg.modules) lg ∙ same,
)

-- With no file open and every module's descriptor `fd`, which is none.
forgotten-IsHolding :
    (fd : ℤ) (lg : Logger)
    → is_held [] fd ≡ true
    → IsHolding (descriptors (record (forget_files lg) { modules = store_all fd lg.modules }))
unfolding clear_crash_fds
forgotten-IsHolding fd lg h = record {
  shared = refl;
  kept = store_all-IsHeldBy [] fd lg.modules h;
  counted = refl;
  mirrored = refl;
}

stored-IsConfigured :
    (r : Registry) (fd : ℤ) (lg : Logger)
    → IsConfigured r (configuration lg)
    → IsConfigured r (configuration (record lg { modules = store_all fd lg.modules }))
stored-IsConfigured r fd lg c = record {
  file = c.file;
  env = c.env;
  api = c.api;
  long = c.long;
  cached = c.cached;
  resolved = c.resolved;
  current = store_all-AllCurrent lg.settings fd lg.modules c.current;
  published = c.published;
  obeyed = c.obeyed;
}

-- No texts, with the registry `r`.
abbrev pub no_layers : Registry → Layers
no_layers r = record { file = []; env = []; api = []; levels = r }

module _ (os : Os) (r : Registry) (l : Layers) where
  shutdown_open-IsWellFormed :
      (closed : Bool) (lg : Logger) (s : os.State)
      → IsWellFormed r l lg
      → IsWellFormed r l (shutdown_open os closed (lg, s)).0
  unfolding clear_crash_fds
  shutdown_open-IsWellFormed true lg s h = h
  shutdown_open-IsWellFormed false lg s h =
      (stored-IsConfigured r gave_up lg h.0, forgotten-IsHolding gave_up lg refl, h.2)

  pub do_shutdown-IsWellFormed :
      (lg : Logger) (s : os.State)
      → IsWellFormed r l lg
      → IsWellFormed r l (do_shutdown os (lg, s)).0
  unfolding do_shutdown
  do_shutdown-IsWellFormed lg s h = shutdown_open-IsWellFormed lg.closed lg s h

  pub do_restart_after_fork-IsWellFormed :
      (lg : Logger) (s : os.State)
      → IsWellFormed r l lg
      → IsWellFormed r l (do_restart_after_fork os (lg, s)).0
  unfolding do_restart_after_fork
  do_restart_after_fork-IsWellFormed lg s h =
      (stored-IsConfigured r not_opened lg h.0, forgotten-IsHolding not_opened lg refl, h.2)

  -- A reset reads the registry of now.
  pub do_reset-IsWellFormed :
      (start : ℤ) (e : ErrorState) (lg : Logger) (s : os.State)
      → IsLong start
      → IsWellFormed r l lg
      → IsWellFormed lg.levels (no_layers lg.levels) (do_reset os start (e, (lg, s))).1.0
  unfolding do_reset clear_crash_fds
  do_reset-IsWellFormed start e lg s long h = (
    reload_locked-IsConfigured _ (reset_errors e) _ (record {
      file = tt;
      env = tt;
      api = tt;
      long = long;
      cached = tt;
      before = lg.settings;
      current = store_all-AllCurrent lg.settings not_opened lg.modules h.0.current;
    }),
    reload_locked-IsHolding _ (reset_errors e) _ (forgotten-IsHolding not_opened lg refl),
    reload_locked-layers _ (reset_errors e) _,
  )
