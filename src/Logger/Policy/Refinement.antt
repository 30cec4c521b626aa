-- ===== src/Logger/Policy/Refinement.antt =====
-- The calls of src/logger.cpp's library as effects on a policy.
use simple_logger.Base.{
  ◌≡◌, refl, ap, subst, ◌∙◌, Option, none, some, List, [], ◌∷◌, Bytes, beq, if◌then◌else◌,
}
use simple_logger.Base.Dict
use simple_logger.Base.Dict.{lookup, lookup-insert}
use simple_logger.Level.{Registry, add_level}
use simple_logger.Errors.{Call}
use simple_logger.Format.{TimeText}
use simple_logger.Os.{Os}
use simple_logger.RunDir.{Run}
use simple_logger.Config.{Kv}
use simple_logger.Config.File.{read_config_file}
use simple_logger.Config.Env.{read_env}
use simple_logger.Logger.{Logger}
use simple_logger.Logger.Files.{World}
use simple_logger.Logger.Life.{do_flush, atfork_child}
use simple_logger.Logger.Api.{
  key_text, set_api, set, config_texts, assign_all, configure, load_file, load_env,
  set_start_epoch_nanos,
}
use simple_logger.Logger.State.{Layers, layers_of, IsSoundIn}
use simple_logger.Logger.State.Configured.{
  set-IsConfigured, configure-IsConfigured, load_file-IsConfigured, load_env-IsConfigured,
  set_start_epoch_nanos-IsConfigured,
}
use simple_logger.Logger.State.Ending.{
  reload_locked-IsHolding, reload_locked-layers, do_shutdown-IsWellFormed,
  do_restart_after_fork-IsWellFormed, do_reset-IsWellFormed, no_layers,
}
use simple_logger.Logger.State.Emission.{emit_to-EndsSound, emit-SiteEndsSound, init-IsSound}
use simple_logger.Logger.State.Admission.{should_log-IsSound, is_enabled-IsSound}
use simple_logger.Logger.State.Steps.{Step, Reach, Keeps}
use simple_logger.Logger.Policy.{Policy, policy_of}
use simple_logger.Logger.Policy.Verdict.{Obeys, well_formed-Obeys}

abbrev pub assigned : Bytes → Bytes → (Bytes → Option Bytes) → Bytes → Option Bytes
assigned key value get k = if beq key k then some value else get k

abbrev pub assigned_all : List (Bytes × Bytes) → (Bytes → Option Bytes) → Bytes → Option Bytes
assigned_all [] get = get
assigned_all ((key, value) ∷ texts) get = assigned_all texts (assigned key value get)

-- The names of now are read.
abbrev pub reread : Policy → Policy
reread p = record p { read = p.names }

lookup-insert_fun :
    (key value : Bytes) (kv : Kv)
    → (λ k. lookup k (Dict.insert key value kv)) ≡ assigned key value (λ k. lookup k kv)
lookup-insert_fun key value kv i k = lookup-insert key k value kv i

lookup-assign_all :
    (texts : List (Bytes × Bytes)) (kv : Kv)
    → (λ k. lookup k (assign_all texts kv)) ≡ assigned_all texts (λ k. lookup k kv)
unfolding assign_all
lookup-assign_all [] kv = refl
lookup-assign_all ((key, value) ∷ texts) kv =
    lookup-assign_all texts (Dict.insert key value kv)
    ∙ ap (assigned_all texts) (lookup-insert_fun key value kv)

module _ (os : Os) (tt_ : TimeText) (sort : List Run → List Run)
    (call : Call (Logger × os.State)) where
  -- What a call does to the policy.
  abbrev pub effect : {w w' : World os tt_ sort} → Step os tt_ sort call w w' → Policy → Policy
  effect (Step.set_call setter e lg s) p =
      let (key, value) = key_text p.names setter in
      reread (record p { api = assigned key value p.api })
  effect (Step.configure_call c e lg s) p =
      reread (record p { api = assigned_all (config_texts p.names c) p.api })
  effect (Step.load_file_call opens path e lg s) p =
      reread (record p { file = λ k. lookup k (read_config_file opens path e).0 })
  effect (Step.load_env_call getenv e lg s) p =
      reread (record p { env = λ k. lookup k (read_env getenv) })
  effect (Step.start_call nanos e lg s long) p = reread p
  effect (Step.reset_call start e lg s long) p =
      reread (record p { file = λ k. none; env = λ k. none; api = λ k. none })
  effect (Step.add_level_call name value e lg s) p = record p {
    names = (add_level p.names name value).0;
  }
  effect _ p = p

  abbrev pub effects : {w w' : World os tt_ sort} → Reach os tt_ sort call w w' → Policy → Policy
  effects Reach.here p = p
  effects (Reach.next steps step) p = effect step (effects steps p)

  -- The logger is well formed, and its layers stand for the policy.
  abbrev pub Refines : Policy → Logger → Type 0
  Refines p = IsSoundIn (λ r l. policy_of r l ≡ p)

  fitting :
      (p : Policy) (r : Registry) (l : Layers) (lg : Logger)
      → policy_of r l ≡ p
      → layers_of lg ≡ l
      → policy_of r (layers_of lg) ≡ p
  fitting p r l lg fits same = ap (policy_of r) same ∙ fits

  Step-Refines :
      ((p : Policy) → Keeps os tt_ sort call (Refines p))
      → {w w' : World os tt_ sort} (step : Step os tt_ sort call w w') (p : Policy)
      → Refines p w.1.0
      → Refines (effect step p) w'.1.0
  unfolding set configure load_file load_env set_start_epoch_nanos set_api do_flush atfork_child
      lookup
  Step-Refines keeps (Step.set_call setter e lg s) p (r, l, fits, (c, d, same)) =
      let (key, value) = key_text lg.levels setter in
      let change = λ (q : Policy). reread (record q {
        api = assigned (key_text q.names setter).0 (key_text q.names setter).1 q.api;
      }) in
      (
        lg.levels,
        _,
        (λ i. reread (record (policy_of r (layers_of lg)) {
          api = lookup-insert_fun key value lg.api_kv i;
        }))
            ∙ ap change (fitting p r l lg fits same),
        (
          set-IsConfigured (os.isatty s) e lg c setter,
          reload_locked-IsHolding _ _ _ d,
          reload_locked-layers _ _ _,
        ),
      )
  Step-Refines keeps (Step.configure_call c' e lg s) p (r, l, fits, (c, d, same)) =
      let change =
        λ (q : Policy). reread (record q { api = assigned_all (config_texts q.names c') q.api }) in
      (
        lg.levels,
        _,
        (λ i. reread (record (policy_of r (layers_of lg)) {
          api = lookup-assign_all (config_texts lg.levels c') lg.api_kv i;
        }))
            ∙ ap change (fitting p r l lg fits same),
        (
          configure-IsConfigured (os.isatty s) e lg c c',
          reload_locked-IsHolding _ _ _ d,
          reload_locked-layers _ _ _,
        ),
      )
  Step-Refines keeps (Step.load_file_call opens path e lg s) p (r, l, fits, (c, d, same)) =
      let change = λ (q : Policy).
        reread (record q { file = λ k. lookup k (read_config_file opens path e).0 }) in
      (
        lg.levels,
        _,
        ap change (fitting p r l lg fits same),
        (
          load_file-IsConfigured (os.isatty s) e lg c opens path,
          reload_locked-IsHolding _ _ _ d,
          reload_locked-layers _ _ _,
        ),
      )
  Step-Refines keeps (Step.load_env_call getenv e lg s) p (r, l, fits, (c, d, same)) =
      let change = λ (q : Policy). reread (record q { env = λ k. lookup k (read_env getenv) }) in
      (
        lg.levels,
        _,
        ap change (fitting p r l lg fits same),
        (
          load_env-IsConfigured (os.isatty s) e lg c getenv,
          reload_locked-IsHolding _ _ _ d,
          reload_locked-layers _ _ _,
        ),
      )
  Step-Refines keeps (Step.start_call nanos e lg s long) p (r, l, fits, (c, d, same)) = (
    lg.levels,
    _,
    ap reread (fitting p r l lg fits same),
    (
      set_start_epoch_nanos-IsConfigured (os.isatty s) e lg c nanos long,
      reload_locked-IsHolding _ _ _ d,
      reload_locked-layers _ _ _,
    ),
  )
  Step-Refines keeps (Step.reset_call start e lg s long) p (r, l, fits, h) =
      let change =
        λ (q : Policy). reread (record q { file = λ k. none; env = λ k. none; api = λ k. none }) in
      (
        lg.levels,
        no_layers lg.levels,
        ap change (fitting p r l lg fits h.2),
        do_reset-IsWellFormed os r l start e lg s long h,
      )
  Step-Refines keeps (Step.add_level_call name value e lg s) p (r, l, fits, (c, d, same)) =
      let change = λ (q : Policy). record q { names = (add_level q.names name value).0 } in
      (r, _, ap change (fitting p r l lg fits same), (c, d, refl))
  Step-Refines keeps (Step.capture_call capture e lg s) p h = h
  Step-Refines keeps (Step.errors_call e' e lg s) p h = h
  Step-Refines keeps (Step.init_call e lg s) p h =
      init-IsSound os tt_ sort call _ (keeps p) e lg s h
  Step-Refines keeps (Step.should_log_call cs v e lg s) p h = should_log-IsSound _ cs v lg h
  Step-Refines keeps (Step.is_enabled_call key v e lg s) p h = is_enabled-IsSound _ key v lg h
  Step-Refines keeps (Step.emit_call printf fuel cs cs' level loc fmt e lg s w done) p h =
      rw done at
        (emit-SiteEndsSound os tt_ sort call _ (keeps p) printf fuel cs level loc fmt e lg s h)
  Step-Refines keeps (Step.emit_to_call printf fuel key level loc fmt e lg s w done) p h =
      rw done at
        (emit_to-EndsSound os tt_ sort call _ (keeps p) printf fuel key level loc fmt e lg s h)
  Step-Refines keeps (Step.flush_call e lg s) p h = h
  Step-Refines keeps (Step.shutdown_call e lg s) p (r, l, fits, h) =
      (r, l, fits, do_shutdown-IsWellFormed os r l lg s h)
  Step-Refines keeps (Step.restart_call e lg s) p (r, l, fits, h) =
      (r, l, fits, do_restart_after_fork-IsWellFormed os r l lg s h)
  Step-Refines keeps (Step.fork_child e lg s) p h = h
  Step-Refines keeps (Step.elsewhere e lg s s') p h = h

  Reach-Refines :
      ((p : Policy) → Keeps os tt_ sort call (Refines p))
      → {w w' : World os tt_ sort} (steps : Reach os tt_ sort call w w') (p : Policy)
      → Refines p w.1.0
      → Refines (effects steps p) w'.1.0
  Reach-Refines keeps Reach.here p h = h
  Reach-Refines keeps (Reach.next steps step) p h =
      Step-Refines keeps step (effects steps p) (Reach-Refines keeps steps p h)

  -- For an error handler that leaves the configuration and the files sound and the layers as they were:
  -- after any calls, in any order, the logger obeys the policy that the calls make of the first one.
  pub Reach-Obeys :
      ((p : Policy) → Keeps os tt_ sort call (Refines p))
      → {w w' : World os tt_ sort} (steps : Reach os tt_ sort call w w') (p : Policy)
      → Refines p w.1.0
      → Obeys w'.1.0 (effects steps p)
  Reach-Obeys keeps {w' = w'} steps p h =
      let (r, l, fits, well) = Reach-Refines keeps steps p h in
      subst (Obeys w'.1.0) fits (well_formed-Obeys r l w'.1.0 well)
