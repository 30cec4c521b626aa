-- ===== src/Logger/Api/Setters.antt =====
-- A setter's text in src/logger.cpp, and the setting that its key resolves to.
use simple_logger.Base.{
  ◌≡◌, ◌≢◌, refl, ap, sym, subst, ◌∙◌, Bool, true, false, Option, some, [], Bytes, codes, arith,
  beq, if◌then◌else◌,
}
use simple_logger.Base.Dict
use simple_logger.Base.Dict.{lookup, lookup-insert, IsSorted, insert-IsSorted}
use simple_logger.Base.Int.{ℤ, eqb_ℤ_iff, IsInt}
use simple_logger.Level.{Registry, k_inherit, k_off, level_name}
use simple_logger.Level.Laws.{IsWellNamed}
use simple_logger.Level.RoundTrip.{parse_level-level_name}
use simple_logger.Errors.{ErrorState}
use simple_logger.Config.{Settings, parse_bool, real_level}
use simple_logger.Text.{to_lower, trim}
use simple_logger.Config.Apply.{resolve, bool_of, level_of, output_of}
use simple_logger.Config.Layers.{or_else, apply_kv-merge}
use simple_logger.Logger.{Logger}
use simple_logger.Logger.Reload.{reload_locked, install, publish_spec}
use simple_logger.Logger.Api.{Setter, key_text, bool_text, level_kv, set_api, set}

-- The text that the layers give a key.
abbrev pub given : Logger → Bytes → Option Bytes
given lg k = or_else (lookup k lg.api_kv) (or_else (lookup k lg.env_kv) (lookup k lg.file_kv))

-- The three layers are maps.
pub record AreMaps (lg : Logger) : Type 0 where
  pub file : IsSorted lg.file_kv
  pub env : IsSorted lg.env_kv
  pub api : IsSorted lg.api_kv

abbrev pub without_modules : Settings → Settings
without_modules s = record s { module_level = [] }

-- The settings after a reload are, but for the modules' levels, those that the layers' texts stand for.
pub reload_locked-resolve :
    (tty : Bool) (e : ErrorState) (lg : Logger)
    → AreMaps lg
    → without_modules (reload_locked tty e lg).1.settings ≡ resolve lg.levels (given lg)
unfolding reload_locked install publish_spec
reload_locked-resolve tty e lg h =
    apply_kv-merge lg.levels lg.file_kv lg.env_kv lg.api_kv e h.file h.env h.api

given_set :
    (key text : Bytes) (lg : Logger) (k : Bytes)
    → given (record lg { api_kv = Dict.insert key text lg.api_kv }) k
      ≡ (if beq key k then some text else given lg k)
given_set key text lg k = ground (arith, lookup-insert key k text lg.api_kv)

-- After a setter, the settings are, but for the modules' levels, those of the layers with the setter's
-- text for its key: no other key's text has changed.
pub set-resolve :
    (tty : Bool) (setter : Setter) (e : ErrorState) (lg : Logger)
    → AreMaps lg
    → let (key, text) = key_text lg.levels setter in
      without_modules (set tty setter (e, lg)).1.settings
      ≡ resolve lg.levels (λ k. if beq key k then some text else given lg k)
unfolding set set_api
set-resolve tty setter e lg h =
    let (key, text) = key_text lg.levels setter in
    let lg' = record lg { api_kv = Dict.insert key text lg.api_kv } in
    reload_locked-resolve tty e lg'
      (record { file = h.file; env = h.env; api = insert-IsSorted key text lg.api_kv h.api })
    ∙ ap (resolve lg.levels) (λ i k. given_set key text lg k i)

bool_of-bool_text : (b old : Bool) → bool_of (bool_text b) old ≡ b
unfolding parse_bool beq to_lower trim
bool_of-bool_text true old = refl
bool_of-bool_text false old = refl

real_level_id : (v : ℤ) → v ≢ k_inherit → real_level (some v) ≡ some v
real_level_id v h = ground (arith, eqb_ℤ_iff v k_inherit)

level_of-level_name :
    (r : Registry) (v old : ℤ)
    → IsWellNamed r
    → IsInt v
    → v ≢ k_off
    → v ≢ k_inherit
    → level_of r (level_name r v) old ≡ v
level_of-level_name r v old w i not_off real =
    rw (parse_level-level_name r v w i not_off, real_level_id v real) refl

level_kv_real : (r : Registry) (v : ℤ) → v ≢ k_inherit → level_kv r v ≡ level_name r v
unfolding level_kv
level_kv_real r v h = ground (arith, eqb_ℤ_iff v k_inherit)

-- A level that stands for itself.
abbrev pub IsReal : ℤ → Type 0
IsReal v = IsInt v × (v ≢ k_off) × (v ≢ k_inherit)

-- The setters of one plain setting, and the levels that they can set.
abbrev pub Sets : Setter → Type 0
Sets (Setter.set_verbosity v) = IsReal v
Sets (Setter.set_flush_level v) = IsReal v
Sets (Setter.set_stdout_verbosity v) = ⊥
Sets (Setter.set_file_verbosity v) = ⊥
Sets (Setter.set_module_verbosity m v) = ⊥
Sets (Setter.set_stdout_modules ms) = ⊥
Sets _ = Unit

-- What a setter promises.
abbrev pub IsSetBy : Setter → Settings → Type 0
IsSetBy (Setter.set_verbosity v) s = s.global_level ≡ v
IsSetBy (Setter.set_flush_level v) s = s.flush_level ≡ v
IsSetBy (Setter.set_disabled b) s = s.disabled ≡ b
IsSetBy (Setter.set_stdout_only b) s = s.stdout_only ≡ b
IsSetBy (Setter.set_file_per_module b) s = s.file_per_module ≡ b
IsSetBy (Setter.enable_time b) s = s.enable_time ≡ b
IsSetBy (Setter.enable_elapsed b) s = s.enable_elapsed ≡ b
IsSetBy (Setter.set_log_dir t) s = s.log_dir ≡ t
IsSetBy (Setter.set_run_tag t) s = s.run_tag ≡ t
IsSetBy (Setter.set_file_name t) s = s.file_name ≡ t
IsSetBy (Setter.set_format t) s = s.format ≡ t
IsSetBy Setter.stdout_off s = s.stdout_enabled ≡ false
IsSetBy Setter.file_off s = s.file_enabled ≡ false
IsSetBy _ s = Unit

off_text : (r : Registry) → (output_of r (codes "off") (true, k_inherit)).0 ≡ false
unfolding beq trim
off_text r = refl

resolve_reads :
    (setter : Setter) (r : Registry) (old : Bytes → Option Bytes)
    → IsWellNamed r
    → Sets setter
    → IsSetBy setter
        (resolve r (λ k. if beq (key_text r setter).0 k then some (key_text r setter).1 else old k))
unfolding beq
resolve_reads (Setter.set_verbosity v) r old w h =
    rw (level_kv_real r v h.2) (level_of-level_name r v _ w h.0 h.1 h.2)
resolve_reads (Setter.set_flush_level v) r old w h = level_of-level_name r v _ w h.0 h.1 h.2
resolve_reads (Setter.set_disabled b) r old w h = bool_of-bool_text b _
resolve_reads (Setter.set_stdout_only b) r old w h = bool_of-bool_text b _
resolve_reads (Setter.set_file_per_module b) r old w h = bool_of-bool_text b _
resolve_reads (Setter.enable_time b) r old w h = bool_of-bool_text b _
resolve_reads (Setter.enable_elapsed b) r old w h = bool_of-bool_text b _
resolve_reads (Setter.set_log_dir t) r old w h = refl
resolve_reads (Setter.set_run_tag t) r old w h = refl
resolve_reads (Setter.set_file_name t) r old w h = refl
resolve_reads (Setter.set_format t) r old w h = refl
resolve_reads Setter.stdout_off r old w h = off_text r
resolve_reads Setter.file_off r old w h = off_text r
resolve_reads (Setter.set_stdout_verbosity v) r old w h = tt
resolve_reads (Setter.set_file_verbosity v) r old w h = tt
resolve_reads (Setter.set_module_verbosity m v) r old w h = tt
resolve_reads (Setter.set_stdout_modules ms) r old w h = tt

with_modules :
    (setter : Setter) (s : Settings) → IsSetBy setter (without_modules s) → IsSetBy setter s
with_modules (Setter.set_verbosity v) s h = h
with_modules (Setter.set_flush_level v) s h = h
with_modules (Setter.set_disabled b) s h = h
with_modules (Setter.set_stdout_only b) s h = h
with_modules (Setter.set_file_per_module b) s h = h
with_modules (Setter.enable_time b) s h = h
with_modules (Setter.enable_elapsed b) s h = h
with_modules (Setter.set_log_dir t) s h = h
with_modules (Setter.set_run_tag t) s h = h
with_modules (Setter.set_file_name t) s h = h
with_modules (Setter.set_format t) s h = h
with_modules (Setter.set_stdout_verbosity v) s h = h
with_modules (Setter.set_file_verbosity v) s h = h
with_modules (Setter.set_module_verbosity m v) s h = h
with_modules (Setter.set_stdout_modules ms) s h = h
with_modules Setter.stdout_off s h = h
with_modules Setter.file_off s h = h

-- In a logger with layers that are maps and a registry that is well named, each setter of one setting
-- does what it promises: a level (but for `kOff` and `kInherit`), a flag or a text is afterwards the
-- one that was set, and an output that was turned off is off. Setters of an output's level, of a
-- module's level and of the stdout modules are left out.
pub set-IsSetBy :
    (tty : Bool) (setter : Setter) (e : ErrorState) (lg : Logger)
    → AreMaps lg
    → IsWellNamed lg.levels
    → Sets setter
    → IsSetBy setter (set tty setter (e, lg)).1.settings
set-IsSetBy tty setter e lg maps w h = with_modules setter (set tty setter (e, lg)).1.settings (
    subst (IsSetBy setter) (sym (set-resolve tty setter e lg maps))
      (resolve_reads setter lg.levels (given lg) w h))
