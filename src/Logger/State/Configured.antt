-- ===== src/Logger/State/Configured.antt =====
-- The calls of src/logger.cpp that configure the logger, on a configured one.
use simple_logger.Base.{refl, ap, ◌∙◌, Bool, Option, none, some, List, [], ◌∷◌, Bytes, ◌++◌}
use simple_logger.Base.Dict
use simple_logger.Base.Dict.{Dict, lookup, IsSorted, insert-IsSorted}
use simple_logger.Base.Int.{ℤ}
use simple_logger.Errors.{ErrorState}
use simple_logger.Os.{Outcome}
use simple_logger.Level.{Registry}
use simple_logger.Config.{Kv, Settings, default_settings, module_prefix}
use simple_logger.Config.Apply.{lookup-apply_kv, or_set, module_of}
use simple_logger.Config.Layers.{merge, overlay, overlay-IsSorted, lookup-merge}
use simple_logger.Config.File.{read_config_file, find_config_path}
use simple_logger.Config.File.Lookup.{read_config_file-IsSorted}
use simple_logger.Config.Env.{read_env}
use simple_logger.Config.Env.Sorted.{read_env-IsSorted}
use simple_logger.Logger.{Module, Logger, new_logger}
use simple_logger.Logger.Files.{set_fd}
use simple_logger.Logger.Life.{store_all}
use simple_logger.Logger.Reload.{
  reload_locked, install, publish_spec, compute_module, resolve_module, add_module,
}
use simple_logger.Logger.Reload.Thresholds.{
  IsCurrent, AllCurrent, compute_modules-AllCurrent, resolve_module-IsCurrent,
}
use simple_logger.Logger.Reload.Cache.{IsLong, IsCached, publish_spec-wanted}
use simple_logger.Logger.Api.{
  Setter, key_text, set_api, set, Config, configure, config_texts, assign_all, load_file, load_env,
  construct, set_start_epoch_nanos,
}
use simple_logger.Logger.Api.Setters.{reload_locked-resolve}
use simple_logger.Logger.State.{Configuration, configuration, layered, AreResolved, IsConfigured}

-- What a reload needs of the members that it reads. The modules may be those of other settings.
pub record IsReloadable (c : Configuration) : Type 0 where
  pub file : IsSorted c.file_kv
  pub env : IsSorted c.env_kv
  pub api : IsSorted c.api_kv
  pub long : IsLong c.start_epoch_ns
  pub cached : IsCached c.spec_cache
  pub before : Settings
  pub current : AllCurrent before c.modules

module _ (tty : Bool) (e : ErrorState) (lg : Logger) (h : IsReloadable (configuration lg)) where
  reload_locked-AreResolved :
      AreResolved lg.levels
        (layered lg.file_kv lg.env_kv lg.api_kv)
        (reload_locked tty e lg).1.settings
  unfolding reload_locked install publish_spec lookup
  reload_locked-AreResolved = record {
    plain = reload_locked-resolve tty e lg (record { file = h.file; env = h.env; api = h.api });
    by_module = λ m.
        lookup-apply_kv lg.levels m (merge lg.file_kv lg.env_kv lg.api_kv) default_settings e (
          unfold merge in
          overlay-IsSorted lg.api_kv (overlay lg.env_kv lg.file_kv)
            (overlay-IsSorted lg.env_kv lg.file_kv h.file))
        ∙ ap (λ o. or_set (module_of lg.levels) o none)
            (lookup-merge (module_prefix ++ m) lg.file_kv lg.env_kv lg.api_kv h.env h.api);
  }

  -- A reload configures the logger by its layers, with the levels' names of now.
  pub reload_locked-IsConfigured : IsConfigured lg.levels (configuration (reload_locked tty e lg).1)
  unfolding reload_locked install publish_spec
  reload_locked-IsConfigured =
      let s = (reload_locked tty e lg).1.settings in
      let shown = publish_spec-wanted (record lg { settings = s }) h.long h.cached in
      record {
        file = h.file;
        env = h.env;
        api = h.api;
        long = h.long;
        cached = shown.1;
        resolved = reload_locked-AreResolved;
        current = compute_modules-AllCurrent s h.before lg.modules h.current;
        published = shown.0;
        obeyed = (refl, refl);
      }

configured-IsReloadable : {r : Registry} (c : Configuration) → IsConfigured r c → IsReloadable c
configured-IsReloadable c h = record {
  file = h.file;
  env = h.env;
  api = h.api;
  long = h.long;
  cached = h.cached;
  before = c.settings;
  current = h.current;
}

assign_all-IsSorted :
    (texts : List (Bytes × Bytes)) (api : Kv) → IsSorted api → IsSorted (assign_all texts api)
unfolding assign_all
assign_all-IsSorted [] api h = h
assign_all-IsSorted ((k, v) ∷ texts) api h =
    assign_all-IsSorted texts (Dict.insert k v api) (insert-IsSorted k v api h)

module _ {r : Registry} (tty : Bool) (e : ErrorState) (lg : Logger)
    (h : IsConfigured r (configuration lg)) where
  -- New texts in the layer of the calls.
  with_api :
      (api : Kv)
      → IsSorted api
      → IsConfigured lg.levels (configuration (reload_locked tty e (record lg { api_kv = api })).1)
  with_api api sorted =
      reload_locked-IsConfigured tty e (record lg { api_kv = api })
        (record {
          file = h.file;
          env = h.env;
          api = sorted;
          long = h.long;
          cached = h.cached;
          before = lg.settings;
          current = h.current;
        })

  pub set-IsConfigured :
      (setter : Setter) → IsConfigured lg.levels (configuration (set tty setter (e, lg)).1)
  unfolding set set_api
  set-IsConfigured setter =
      let (key, text) = key_text lg.levels setter in
      with_api (Dict.insert key text lg.api_kv) (insert-IsSorted key text lg.api_kv h.api)

  pub configure-IsConfigured :
      (c : Config) → IsConfigured lg.levels (configuration (configure tty c (e, lg)).1)
  unfolding configure
  configure-IsConfigured c =
      with_api (assign_all (config_texts lg.levels c) lg.api_kv)
        (assign_all-IsSorted (config_texts lg.levels c) lg.api_kv h.api)

  pub load_file-IsConfigured :
      (opens : Bytes → Outcome Bytes) (path : Bytes)
      → IsConfigured lg.levels (configuration (load_file tty opens path (e, lg)).1)
  unfolding load_file
  load_file-IsConfigured opens path =
      let (kv, e') = read_config_file opens path e in
      reload_locked-IsConfigured tty e' (record lg { file_kv = kv })
        (record {
          file = read_config_file-IsSorted opens path e;
          env = h.env;
          api = h.api;
          long = h.long;
          cached = h.cached;
          before = lg.settings;
          current = h.current;
        })

  pub load_env-IsConfigured :
      (getenv : Bytes → Option Bytes)
      → IsConfigured lg.levels (configuration (load_env tty getenv (e, lg)).1)
  unfolding load_env
  load_env-IsConfigured getenv =
      reload_locked-IsConfigured tty e (record lg { env_kv = read_env getenv })
        (record {
          file = h.file;
          env = read_env-IsSorted getenv;
          api = h.api;
          long = h.long;
          cached = h.cached;
          before = lg.settings;
          current = h.current;
        })

  pub set_start_epoch_nanos-IsConfigured :
      (nanos : ℤ)
      → IsLong nanos
      → IsConfigured lg.levels (configuration (set_start_epoch_nanos tty nanos (e, lg)).1)
  unfolding set_start_epoch_nanos
  set_start_epoch_nanos-IsConfigured nanos long =
      reload_locked-IsConfigured tty e (record lg { start_epoch_ns = nanos })
        (record {
          file = h.file;
          env = h.env;
          api = h.api;
          long = long;
          cached = h.cached;
          before = lg.settings;
          current = h.current;
        })

module _ {r : Registry} (lg : Logger) (h : IsConfigured r (configuration lg)) where
  add_module-keeps :
      (key : Bytes) (o : Option Module)
      → AllCurrent lg.settings (add_module key o lg).1.modules
      → IsConfigured r (configuration (add_module key o lg).1)
  add_module-keeps key none current = record {
    file = h.file;
    env = h.env;
    api = h.api;
    long = h.long;
    cached = h.cached;
    resolved = h.resolved;
    current = current;
    published = h.published;
    obeyed = h.obeyed;
  }
  add_module-keeps key (some ms) current = h

  pub resolve_module-IsConfigured :
      (key : Bytes) → IsConfigured r (configuration (resolve_module key lg).1)
  unfolding resolve_module
  resolve_module-IsConfigured key =
      add_module-keeps key (lookup key lg.modules) (resolve_module-IsCurrent key lg h.current).1

pub construct-IsConfigured :
    (tty : Bool) (now : ℤ) (opens : Bytes → Outcome Bytes) (getenv : Bytes → Option Bytes)
    (readable : Bytes → Bool) (e : ErrorState)
    → IsLong now
    → IsConfigured
        (new_logger now).levels
        (configuration (construct tty now opens getenv readable e).1)
unfolding construct
construct-IsConfigured tty now opens getenv readable e long =
    let (kv, e') = read_config_file opens (find_config_path getenv readable) e in
    reload_locked-IsConfigured tty e'
      (record (new_logger now) { file_kv = kv; env_kv = read_env getenv })
      (record {
        file = read_config_file-IsSorted opens (find_config_path getenv readable) e;
        env = read_env-IsSorted getenv;
        api = tt;
        long = long;
        cached = tt;
        before = default_settings;
        current = tt;
      })

-- A module's descriptor says nothing of its thresholds.
pub set_fd-IsCurrent :
    (s : Settings) (key : Bytes) (fd : ℤ) (ms : Module)
    → IsCurrent s (key, ms)
    → IsCurrent s (key, set_fd fd ms)
unfolding compute_module
set_fd-IsCurrent s key fd ms h = (h.0, ap (set_fd fd) h.1)

pub store_all-AllCurrent :
    (s : Settings) (fd : ℤ) (modules : Dict Module)
    → AllCurrent s modules
    → AllCurrent s (store_all fd modules)
unfolding store_all
store_all-AllCurrent s fd [] h = tt
store_all-AllCurrent s fd ((k, ms) ∷ modules) h =
    (set_fd-IsCurrent s k fd ms h.0, store_all-AllCurrent s fd modules h.1)
