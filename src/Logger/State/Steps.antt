-- ===== src/Logger/State/Steps.antt =====
-- The calls of src/logger.cpp's library as steps of the world, in any order, and what holds after each
-- of them. `mu_` makes a call one step; the reads of a log call outside it are in its own thread's step.
use simple_logger.Base.{◌≡◌, refl, ap, ◌∙◌, arith, take, Option, some, List, Bytes, ℕ, Bool}
use simple_logger.Base.Int.{ℤ}
use simple_logger.Level.{Level, Registry, add_level, registry}
use simple_logger.Errors.{ErrorState, ErrorInfo, Call}
use simple_logger.Format.{SourceLoc, TimeText}
use simple_logger.Os.{Os, Outcome}
use simple_logger.Sink.{Capture}
use simple_logger.RunDir.{Run}
use simple_logger.Logger.{Logger}
use simple_logger.Logger.Reload.Cache.{IsLong}
use simple_logger.Logger.Files.{World}
use simple_logger.Logger.Admit.{CallSite, should_log, is_enabled}
use simple_logger.Logger.Emit.{emit, emit_to}
use simple_logger.Logger.Life.{
  do_flush, do_shutdown, do_restart_after_fork, do_reset, atfork_child, crash_handler, crash_write,
}
use simple_logger.Logger.Api.{
  Setter, set, set_api, Config, configure, load_file, load_env, construct, init,
  set_start_epoch_nanos,
}
use simple_logger.Logger.State.{IsSound, IsWellFormed, Layers, layers_of}
use simple_logger.Logger.State.Configured.{
  set-IsConfigured, configure-IsConfigured, load_file-IsConfigured, load_env-IsConfigured,
  set_start_epoch_nanos-IsConfigured, construct-IsConfigured,
}
use simple_logger.Logger.State.Ending.{
  reload_locked-IsHolding, do_shutdown-IsWellFormed, do_restart_after_fork-IsWellFormed,
  do_reset-IsWellFormed,
}
use simple_logger.Logger.State.Emission.{emit_to-EndsSound, emit-SiteEndsSound, init-IsSound}
use simple_logger.Logger.State.Admission.{should_log-IsSound, is_enabled-IsSound}

-- The constructed logger is well formed, by the layers that it read.
pub construct-IsWellFormed :
    (tty : Bool) (now : ℤ) (opens : Bytes → Outcome Bytes) (getenv : Bytes → Option Bytes)
    (readable : Bytes → Bool) (e : ErrorState)
    → IsLong now
    → let lg = (construct tty now opens getenv readable e).1 in
      IsWellFormed registry (layers_of lg) lg
unfolding construct
construct-IsWellFormed tty now opens getenv readable e long = (
  construct-IsConfigured tty now opens getenv readable e long,
  reload_locked-IsHolding _ _ _
      (record { shared = refl; kept = tt; counted = refl; mirrored = refl }),
  refl,
)

module _ (os : Os) (tt_ : TimeText) (sort : List Run → List Run)
    (call : Call (Logger × os.State)) where
  -- A world with what a call made of the errors and the logger.
  abbrev pub beside : os.State → ErrorState × Logger → World os tt_ sort
  beside s p = (p.0, (p.1, s))

  -- A call of the library. Its arguments, what files and the environment hold, and what printf makes of
  -- a format are free; a log call that is still writing is no step.
  pub data Step : World os tt_ sort → World os tt_ sort → Type 0 where
    set_call :
        (setter : Setter) (e : ErrorState) (lg : Logger) (s : os.State)
        → Step (e, (lg, s)) (beside s (set (os.isatty s) setter (e, lg)))
    configure_call :
        (c : Config) (e : ErrorState) (lg : Logger) (s : os.State)
        → Step (e, (lg, s)) (beside s (configure (os.isatty s) c (e, lg)))
    load_file_call :
        (opens : Bytes → Outcome Bytes) (path : Bytes) (e : ErrorState) (lg : Logger) (s : os.State)
        → Step (e, (lg, s)) (beside s (load_file (os.isatty s) opens path (e, lg)))
    load_env_call :
        (getenv : Bytes → Option Bytes) (e : ErrorState) (lg : Logger) (s : os.State)
        → Step (e, (lg, s)) (beside s (load_env (os.isatty s) getenv (e, lg)))
    start_call :
        (nanos : ℤ) (e : ErrorState) (lg : Logger) (s : os.State)
        → IsLong nanos
        → Step (e, (lg, s)) (beside s (set_start_epoch_nanos (os.isatty s) nanos (e, lg)))
    reset_call :
        (start : ℤ) (e : ErrorState) (lg : Logger) (s : os.State)
        → IsLong start
        → Step (e, (lg, s)) (do_reset os start (e, (lg, s)))
    add_level_call :
        (name : Bytes) (value : ℤ) (e : ErrorState) (lg : Logger) (s : os.State)
        → Step (e, (lg, s)) (e, (record lg { levels = (add_level lg.levels name value).0 }, s))
    capture_call :
        (capture : Capture) (e : ErrorState) (lg : Logger) (s : os.State)
        → Step (e, (lg, s)) (e, (record lg { capture = capture }, s))
    errors_call : (e' e : ErrorState) (lg : Logger) (s : os.State) → Step (e, (lg, s)) (e', (lg, s))
    init_call :
        (e : ErrorState) (lg : Logger) (s : os.State)
        → Step (e, (lg, s)) (init os tt_ sort call (e, (lg, s))).1
    should_log_call :
        (cs : CallSite) (v : ℤ) (e : ErrorState) (lg : Logger) (s : os.State)
        → Step (e, (lg, s)) (e, ((should_log cs v lg).1.1, s))
    is_enabled_call :
        (key : Bytes) (v : ℤ) (e : ErrorState) (lg : Logger) (s : os.State)
        → Step (e, (lg, s)) (e, ((is_enabled key v lg).1, s))
    emit_call :
        (printf : Bytes → Option Bytes) (fuel : ℕ) (cs cs' : CallSite) (level : Level)
        (loc : SourceLoc) (fmt : Option Bytes) (e : ErrorState) (lg : Logger) (s : os.State)
        (w : World os tt_ sort)
        → emit os tt_ sort call printf fuel cs level loc fmt (e, (lg, s)) ≡ some (cs', w)
        → Step (e, (lg, s)) w
    emit_to_call :
        (printf : Bytes → Option Bytes) (fuel : ℕ) (key : Bytes) (level : Level) (loc : SourceLoc)
        (fmt : Option Bytes) (e : ErrorState) (lg : Logger) (s : os.State) (w : World os tt_ sort)
        → emit_to os tt_ sort call printf fuel key level loc fmt (e, (lg, s)) ≡ some w
        → Step (e, (lg, s)) w
    flush_call :
        (e : ErrorState) (lg : Logger) (s : os.State) → Step (e, (lg, s)) (e, do_flush os (lg, s))
    shutdown_call :
        (e : ErrorState) (lg : Logger) (s : os.State)
        → Step (e, (lg, s)) (e, do_shutdown os (lg, s))
    restart_call :
        (e : ErrorState) (lg : Logger) (s : os.State)
        → Step (e, (lg, s)) (e, do_restart_after_fork os (lg, s))
    fork_child :
        (e : ErrorState) (lg : Logger) (s : os.State)
        → Step (e, (lg, s)) (e, atfork_child os (lg, s))
    -- Other code of the process, and the system.
    elsewhere : (e : ErrorState) (lg : Logger) (s s' : os.State) → Step (e, (lg, s)) (e, (lg, s'))

  -- The worlds behind a sequence of calls.
  pub data Reach (w : World os tt_ sort) : World os tt_ sort → Type 0 where
    here : Reach w w
    next : {v u : World os tt_ sort} → Reach w v → Step v u → Reach w u

  -- What the handler may do: it leaves a sound logger sound.
  abbrev pub Keeps : (Logger → Type 0) → Type 0
  Keeps P =
      (h u : ℕ) (i : ErrorInfo) (e : ErrorState) (lg : Logger) (s : os.State)
      → P lg
      → P (call h u i (e, (lg, s))).1.1.0

  Step-IsSound :
      Keeps IsSound → {w w' : World os tt_ sort} → Step w w' → IsSound w.1.0 → IsSound w'.1.0
  unfolding set configure load_file load_env set_start_epoch_nanos set_api do_flush atfork_child
  Step-IsSound keeps (set_call setter e lg s) (r, l, fits, (c, d, same)) = (
    lg.levels,
    _,
    tt,
    (set-IsConfigured (os.isatty s) e lg c setter, reload_locked-IsHolding _ _ _ d, refl),
  )
  Step-IsSound keeps (configure_call c' e lg s) (r, l, fits, (c, d, same)) = (
    lg.levels,
    _,
    tt,
    (configure-IsConfigured (os.isatty s) e lg c c', reload_locked-IsHolding _ _ _ d, refl),
  )
  Step-IsSound keeps (load_file_call opens path e lg s) (r, l, fits, (c, d, same)) = (
    lg.levels,
    _,
    tt,
    (load_file-IsConfigured (os.isatty s) e lg c opens path, reload_locked-IsHolding _ _ _ d, refl),
  )
  Step-IsSound keeps (load_env_call getenv e lg s) (r, l, fits, (c, d, same)) = (
    lg.levels,
    _,
    tt,
    (load_env-IsConfigured (os.isatty s) e lg c getenv, reload_locked-IsHolding _ _ _ d, refl),
  )
  Step-IsSound keeps (start_call nanos e lg s long) (r, l, fits, (c, d, same)) = (
    lg.levels,
    _,
    tt,
    (
      set_start_epoch_nanos-IsConfigured (os.isatty s) e lg c nanos long,
      reload_locked-IsHolding _ _ _ d,
      refl,
    ),
  )
  Step-IsSound keeps (reset_call start e lg s long) (r, l, fits, h) =
      (lg.levels, _, tt, do_reset-IsWellFormed os r l start e lg s long h)
  Step-IsSound keeps (add_level_call name value e lg s) (r, l, fits, (c, d, same)) =
      (r, _, tt, (c, d, refl))
  Step-IsSound keeps (capture_call capture e lg s) h = h
  Step-IsSound keeps (errors_call e' e lg s) h = h
  Step-IsSound keeps (init_call e lg s) h = init-IsSound os tt_ sort call _ keeps e lg s h
  Step-IsSound keeps (should_log_call cs v e lg s) h = should_log-IsSound _ cs v lg h
  Step-IsSound keeps (is_enabled_call key v e lg s) h = is_enabled-IsSound _ key v lg h
  Step-IsSound keeps (emit_call printf fuel cs cs' level loc fmt e lg s w done) h =
      rw done at (emit-SiteEndsSound os tt_ sort call _ keeps printf fuel cs level loc fmt e lg s h)
  Step-IsSound keeps (emit_to_call printf fuel key level loc fmt e lg s w done) h =
      rw done at (emit_to-EndsSound os tt_ sort call _ keeps printf fuel key level loc fmt e lg s h)
  Step-IsSound keeps (flush_call e lg s) h = h
  Step-IsSound keeps (shutdown_call e lg s) (r, l, fits, h) =
      (r, l, fits, do_shutdown-IsWellFormed os r l lg s h)
  Step-IsSound keeps (restart_call e lg s) (r, l, fits, h) =
      (r, l, fits, do_restart_after_fork-IsWellFormed os r l lg s h)
  Step-IsSound keeps (fork_child e lg s) h = h
  Step-IsSound keeps (elsewhere e lg s s') h = h

  Reach-IsSound :
      Keeps IsSound → {w w' : World os tt_ sort} → IsSound w.1.0 → Reach w w' → IsSound w'.1.0
  Reach-IsSound keeps h here = h
  Reach-IsSound keeps h (next steps step) = Step-IsSound keeps step (Reach-IsSound keeps h steps)

  -- With an error handler that leaves a sound logger sound: whatever the config file, the environment and
  -- the clock gave the constructor, after any calls of the library in any order the logger is sound.
  pub constructed-IsSound :
      Keeps IsSound
      → (tty : Bool) (now : ℤ) (opens : Bytes → Outcome Bytes) (getenv : Bytes → Option Bytes)
        (readable : Bytes → Bool) (e : ErrorState) (s : os.State) (w : World os tt_ sort)
      → IsLong now
      → Reach (beside s (construct tty now opens getenv readable e)) w
      → IsSound w.1.0
  constructed-IsSound keeps tty now opens getenv readable e s w long steps =
      Reach-IsSound keeps
        (registry, _, tt, construct-IsWellFormed tty now opens getenv readable e long) steps

-- In a well-formed logger the crash handler writes its note to the first 64 open files, in the order in
-- which they were opened, and syncs them; to no other.
pub crash_handler-open_files :
    (os : Os) (r : Registry) (l : Layers) (lg : Logger) (s : os.State)
    → IsWellFormed r l lg
    → crash_handler os (lg, s) ≡ crash_write os (take 64 lg.open_fds) s
unfolding crash_handler
crash_handler-open_files os r l lg s (c, d, same) =
    ap (λ fds. crash_write os fds s)
      (ap (λ n. take n lg.crash_fds) (ground (arith, d.counted)) ∙ d.mirrored)
