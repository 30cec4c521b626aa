-- ===== src/Logger/State/Admission.antt =====
-- The tests in front of a log call of src/logger.cpp, on a well-formed logger.
use simple_logger.Base.{Bool, true, false, Bytes, if_both}
use simple_logger.Base.Int.{ℤ}
use simple_logger.Level.{Registry}
use simple_logger.Logger.{Logger}
use simple_logger.Logger.Admit.{CallSite, resolve_site, should_log, is_enabled, answer}
use simple_logger.Logger.State.{Layers, IsSoundIn}
use simple_logger.Logger.State.Ending.{resolve_module-IsWellFormed}

pub resolve_site-IsSound :
    (Fits : Registry → Layers → Type 0) (cs : CallSite) (lg : Logger)
    → IsSoundIn Fits lg
    → IsSoundIn Fits (resolve_site cs lg).1
unfolding resolve_site
resolve_site-IsSound Fits cs lg (r, l, fits, h) =
    if_both (λ (res : CallSite × Logger). IsSoundIn Fits res.1) cs.state _ _ (r, l, fits, h)
      (r, l, fits, resolve_module-IsWellFormed r l cs.module_name lg h)

answer-IsSound :
    (Fits : Registry → Layers → Type 0) (off : Bool) (cs : CallSite) (v : ℤ) (lg : Logger)
    → IsSoundIn Fits lg
    → IsSoundIn Fits (answer off cs v lg (resolve_site cs lg)).1.1
answer-IsSound Fits true cs v lg h = h
answer-IsSound Fits false cs v lg h = resolve_site-IsSound Fits cs lg h

pub should_log-IsSound :
    (Fits : Registry → Layers → Type 0) (cs : CallSite) (v : ℤ) (lg : Logger)
    → IsSoundIn Fits lg
    → IsSoundIn Fits (should_log cs v lg).1.1
unfolding should_log
should_log-IsSound Fits cs v lg h = answer-IsSound Fits lg.disabled cs v lg h

pub is_enabled-IsSound :
    (Fits : Registry → Layers → Type 0) (key : Bytes) (v : ℤ) (lg : Logger)
    → IsSoundIn Fits lg
    → IsSoundIn Fits (is_enabled key v lg).1
unfolding is_enabled
is_enabled-IsSound Fits key v lg (r, l, fits, h) =
    if_both (λ (res : Bool × Logger). IsSoundIn Fits res.1) lg.disabled _ _ (r, l, fits, h)
      (r, l, fits, resolve_module-IsWellFormed r l key lg h)
