-- ===== src/Logger/Filter.antt =====
-- `should_log` of src/logger.cpp, the filter in front of `emit`, beside the tests of the two outputs.
use mathlib.Core.Bool.{◌||◌}
use simple_logger.Base.{
  ℕ, ◌≡◌, refl, ap, sym, ◌∙◌, true, false, Option, none, some, List, Bytes, arith, Bool-cases, inl,
  inr, subst,
}
use simple_logger.Base.Dict.{lookup}
use simple_logger.Base.Int.{ℤ, leb_ℤ, ltb_ℤ}
use simple_logger.Level.{Level, k_off}
use simple_logger.Errors.{ErrorState, Call}
use simple_logger.Format.{FormatSpec, SourceLoc, TimeText, Record}
use simple_logger.Os.{Os}
use simple_logger.RunDir.{Run}
use simple_logger.Logger.{Module, Logger}
use simple_logger.Logger.Files.{World, cached_pid, cached_tid}
use simple_logger.Logger.Reload.Thresholds.{
  IsCollected, AllCurrent, collect_filters, collect_admits, current-IsCollected, lookup-IsCurrent,
  resolve_module-IsCurrent,
}
use simple_logger.Logger.Admit.{
  CallSite, state_or, state_of, file_admits, stdout_admits, resolve_site, answer, should_log,
}
use simple_logger.Logger.Emit.{gather, record_of, file_turn, stdout_turn, dispatch_with}

state_or-IsCollected :
    (lg : Logger) (key : Bytes) (o : Option Module)
    → AllCurrent lg.settings lg.modules
    → lookup key lg.modules ≡ o
    → IsCollected (state_or key o)
state_or-IsCollected lg key none h e = refl
state_or-IsCollected lg key (some ms) h e =
    current-IsCollected lg.settings key ms (lookup-IsCurrent lg.settings key lg.modules ms h e)

pub state_of-IsCollected :
    (lg : Logger) (key : Bytes) → AllCurrent lg.settings lg.modules → IsCollected (state_of key lg)
state_of-IsCollected lg key h = state_or-IsCollected lg key (lookup key lg.modules) h refl

resolve_site-AllCurrent :
    (cs : CallSite) (lg : Logger)
    → AllCurrent lg.settings lg.modules
    → AllCurrent lg.settings (resolve_site cs lg).1.modules
unfolding resolve_site
resolve_site-AllCurrent cs lg h = ground (arith, (resolve_module-IsCurrent cs.module_name lg h).1)

site-IsCollected :
    (cs : CallSite) (lg : Logger)
    → AllCurrent lg.settings lg.modules
    → IsCollected (state_of cs.module_name (resolve_site cs lg).1)
unfolding resolve_site
site-IsCollected cs lg h =
    let (current, all_current, same) = resolve_module-IsCurrent cs.module_name lg h in
    elim (Bool-cases cs.state) [
      | inl resolved ↦ rw resolved (state_of-IsCollected lg cs.module_name h)
      | inr fresh ↦
          rw fresh (
            subst IsCollected (sym same) (current-IsCollected lg.settings cs.module_name _ current))
    ]

should_log_on :
    (cs : CallSite) (v : ℤ) (lg : Logger)
    → lg.disabled ≡ false
    → should_log cs v lg
      ≡ (leb_ℤ v (state_of cs.module_name (resolve_site cs lg).1).collect_level, resolve_site cs lg)
unfolding should_log
should_log_on cs v lg on = ap (λ b. answer b cs v lg (resolve_site cs lg)) on

module _ (os : Os) (tt_ : TimeText) (sort : List Run → List Run)
    (call : Call (Logger × os.State)) where
  pub file_turn_silent :
      (fuel : ℕ) (key : Bytes) (fs : FormatSpec) (rec : Record) (w : World os tt_ sort)
      → file_admits (state_of key w.1.0) rec.level.value ≡ false
      → file_turn os tt_ sort call fuel key fs rec w ≡ some w
  unfolding file_turn
  file_turn_silent fuel key fs rec w h = rw h refl

  stdout_turn_silent :
      (fuel : ℕ) (key : Bytes) (fs : FormatSpec) (rec : Record) (w : World os tt_ sort)
      → stdout_admits (state_of key w.1.0) rec.level.value ≡ false
      → stdout_turn os tt_ sort call fuel key fs rec w ≡ some w
  unfolding stdout_turn
  stdout_turn_silent fuel key fs rec w h = rw h refl

  dispatch_silent :
      (fuel : ℕ) (key : Bytes) (level : Level) (loc : SourceLoc) (msg : Bytes) (fs : FormatSpec)
      (w : World os tt_ sort)
      → file_admits (state_of key w.1.0) level.value ≡ false
      → stdout_admits (state_of key w.1.0) level.value ≡ false
      → dispatch_with os tt_ sort call fuel key level loc msg fs w
        ≡ some (gather os tt_ sort call key level loc msg fs w).1
  unfolding dispatch_with gather cached_pid cached_tid record_of
  dispatch_silent fuel key level loc msg fs (e, (lg, s)) hf hs =
      let got = gather os tt_ sort call key level loc msg fs (e, (lg, s)) in
      rw (file_turn_silent fuel key fs got.0 got.1 hf)
        (stdout_turn_silent fuel key fs got.0 got.1 hs)

  -- For a logger that is on and whose modules are those of its settings: if `should_log` says no, then
  -- dispatching the record would write nothing, to the file or to stdout, and call no handler; it would
  -- only fill the id caches. If `should_log` says yes, stdout is not limited to one level and the level
  -- is above `kOff`, then one of the two outputs admits the record.
  pub should_log-dispatch :
      (cs : CallSite) (level : Level) (lg : Logger)
      → AllCurrent lg.settings lg.modules
      → lg.disabled ≡ false
      → let (said, (cs', lg')) = should_log cs level.value lg in
        let ms = state_of cs.module_name lg' in
        (said ≡ false
          → (fuel : ℕ) (loc : SourceLoc) (msg : Bytes) (fs : FormatSpec) (e : ErrorState)
            (s : os.State)
          → dispatch_with os tt_ sort call fuel cs.module_name level loc msg fs (e, (lg', s))
            ≡ some (gather os tt_ sort call cs.module_name level loc msg fs (e, (lg', s))).1)
        × (said ≡ true
            → ms.stdout_only ≡ false
            → ltb_ℤ k_off level.value ≡ true
            → (file_admits ms level.value || stdout_admits ms level.value) ≡ true)
  should_log-dispatch cs level lg h on =
      let lg' = (resolve_site cs lg).1 in
      let ms = state_of cs.module_name lg' in
      let collected = site-IsCollected cs lg h in
      rw (should_log_on cs level.value lg on) (
        λ refused fuel loc msg fs e s.
            let shut = collect_filters ms level.value collected refused in
            dispatch_silent fuel cs.module_name level loc msg fs (e, (lg', s)) shut.0 shut.1,
        λ wanted only above. sym (collect_admits ms level.value collected only above) ∙ wanted,
      )
