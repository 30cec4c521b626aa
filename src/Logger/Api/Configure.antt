-- ===== src/Logger/Api/Configure.antt =====
-- `configure` and `init`, called again.
use simple_logger.Base.{◌≡◌, refl, false, List, [], ◌∷◌, Bytes, arith, beq}
use simple_logger.Base.Dict
use simple_logger.Base.Dict.{Dict}
use simple_logger.Base.Int.{ℤ}
use simple_logger.Errors.{Errc, ErrorState, Call}
use simple_logger.Format.{TimeText}
use simple_logger.Os.{Os}
use simple_logger.RunDir.{Run, RunDir}
use simple_logger.Logger.{Logger, no_open_err}
use simple_logger.Logger.Files.{take_run, open_now, ensure_run_open}
use simple_logger.Logger.Api.{Config, thrown, init}

-- A module without a level in a table.
abbrev pub IsMissing : Bytes → Dict ℤ → Type 0
IsMissing m [] = Unit
IsMissing m ((k, v) ∷ ms) = (beq k m ≡ false) × IsMissing m ms

module _ (os : Os) (tt_ : TimeText) (sort : List Run → List Run)
    (call : Call (Logger × os.State)) where
  -- A logger whose run failed to open is not tried again.
  ensure_failed :
      (e : ErrorState) (lg : Logger) (s : os.State)
      → lg.init_state ≡ 2
      → ensure_run_open os tt_ sort (e, (lg, s)) ≡ ((false, no_open_err), (e, (lg, s)))
  unfolding ensure_run_open
  ensure_failed e lg s h = ground arith

  take_run-failed :
      (dir first_file : Bytes) (rd : RunDir) (lg : Logger)
      → (take_run os tt_ sort dir first_file rd lg).0.0 ≡ false
      → (take_run os tt_ sort dir first_file rd lg).1.init_state ≡ 2
  unfolding take_run
  take_run-failed dir first_file rd lg h = ground arith

  open_now-failed :
      (e : ErrorState) (lg : Logger) (s : os.State)
      → (open_now os tt_ sort (e, (lg, s))).0.0 ≡ false
      → (open_now os tt_ sort (e, (lg, s))).1.1.0.init_state ≡ 2
  unfolding open_now
  open_now-failed e lg s h = take_run-failed _ _ _ _ h

  failed_state :
      (e : ErrorState) (lg : Logger) (s : os.State)
      → (ensure_run_open os tt_ sort (e, (lg, s))).0.0 ≡ false
      → (ensure_run_open os tt_ sort (e, (lg, s))).1.1.0.init_state ≡ 2
  unfolding ensure_run_open
  failed_state e lg s h = ground (arith, open_now-failed e lg s)

  -- Once the run failed to open, a later `init` throws too, but what it throws is the code `ok` and an
  -- empty text, and it tries nothing and reports nothing.
  pub init-failed :
      (e : ErrorState) (lg : Logger) (s : os.State)
      → let (opened, w) = ensure_run_open os tt_ sort (e, (lg, s)) in
        opened.0 ≡ false → init os tt_ sort call w ≡ (thrown Errc.ok [], w)
  unfolding init
  init-failed e lg s h =
      let w = (ensure_run_open os tt_ sort (e, (lg, s))).1 in
      rw (ensure_failed w.0 w.1.0 w.1.1 (failed_state e lg s h)) refl
