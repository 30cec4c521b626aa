-- ===== src/Config.antt =====
-- src/config.cpp: the key/value layers and the settings they resolve to (those of src/internal.h).
-- Bad values and keys are recorded in the errors' state of `Errors`.
pub mod File
pub mod Env
pub mod Keys
pub mod Apply
pub mod Layers
use mathlib.Core.Bool.{not, ◌||◌, ◌&&◌}
use simple_logger.Base.{
  ℕ, suc, zero, Bool, true, false, Option, none, some, List, [], ◌∷◌, ◌++◌, Bytes, codes, beq, ◌==◌,
  ltb, leb, if◌then◌else◌,
}
use simple_logger.Base.Dict
use simple_logger.Base.Dict.{Dict}
use simple_logger.Base.Int.{ℤ, pos, eqb_ℤ}
use simple_logger.Text.{to_lower, trim, split}
use simple_logger.Text.Decimal.{atoi}
use simple_logger.Level.{Registry, parse_level, k_inherit, level_warning}
use simple_logger.Errors.{Errc, ErrorState, record_error}

-- `Kv`
abbrev pub Kv : Type 0
Kv = Dict Bytes

pub record Settings : Type 0 where
  pub disabled : Bool
  pub global_level : ℤ
  pub module_level : Dict ℤ
  pub file_enabled : Bool
  pub file_level : ℤ
  pub file_per_module : Bool
  pub file_name : Bytes
  pub stdout_enabled : Bool
  pub stdout_level : ℤ
  pub stdout_only : Bool
  pub stdout_modules : List Bytes
  pub log_dir : Bytes
  pub run_tag : Bytes
  pub format : Bytes
  pub enable_time : Bool
  pub enable_elapsed : Bool
  pub color : Bytes
  pub flush_level : ℤ
  pub retain_runs : ℤ
  pub retain_days : ℤ

abbrev pub default_settings : Settings
default_settings = record {
  disabled = false;
  global_level = level_warning;
  module_level = [];
  file_enabled = true;
  file_level = k_inherit;
  file_per_module = false;
  file_name = [];
  stdout_enabled = true;
  stdout_level = k_inherit;
  stdout_only = false;
  stdout_modules = [];
  log_dir = [];
  run_tag = [];
  format = codes "[%L][%f]: %m";
  enable_time = false;
  enable_elapsed = false;
  color = codes "auto";
  flush_level = level_warning;
  retain_runs = pos 0;
  retain_days = pos 0;
}

-- `out` when it parses; none when `parse_bool` is false.
unfoldable pub parse_bool : Bytes → Option Bool
parse_bool v =
    let t = to_lower (trim v) in
    if beq t (codes "true") || (beq t (codes "1") || (beq t (codes "on") || beq t (codes "yes")))
    then some true
    else if beq t (codes "false")
        || (beq t (codes "0") || (beq t (codes "off") || beq t (codes "no")))
    then some false
    else none

abbrev pub bad_value : Bytes → ErrorState → ErrorState
bad_value what e = record_error Errc.config_bad_value (pos 0) what e

abbrev is_nil : Bytes → Bool
is_nil [] = true
is_nil (c ∷ s) = false

-- The last part of `apply_output`: the new level, or the old one and an error.
abbrev pub set_level : Bytes → Option ℤ → ℤ → ErrorState → ℤ × ErrorState
set_level what none old e = (old, bad_value what e)
set_level what (some v) old e = (v, e)

-- `apply_output`, over `enabled` and `level`
unfoldable pub apply_output :
    Registry → Bytes → Bytes → Bool × ℤ → ErrorState → (Bool × ℤ) × ErrorState
apply_output r key v (enabled, level) e =
    let t = trim v in
    let (level', e') = set_level (key ++ b'=' ∷ t) (parse_level r t) level e in
    if beq t (codes "off")
    then ((false, level), e)
    else if beq t (codes "on") || is_nil t
    then ((true, k_inherit), e)
    else ((true, level'), e')

abbrev pub set_bool : Bytes → Option Bool → Bool → ErrorState → Bool × ErrorState
set_bool what none old e = (old, bad_value what e)
set_bool what (some b) old e = (b, e)

unfoldable pub apply_bool : Bytes → Bytes → Bool → ErrorState → Bool × ErrorState
unfolding parse_bool
apply_bool key val out e = set_bool (key ++ b'=' ∷ trim val) (parse_bool val) out e

-- `parse_level(val, level) && level != kInherit`
abbrev pub real_level : Option ℤ → Option ℤ
real_level none = none
real_level (some v) = if eqb_ℤ v k_inherit then none else some v

-- What the chain of tests in `apply_kv` tells apart.
pub data Key : Type 0 where
  module_level : Bytes → Key
  disable verbosity dir tag file file_per_module file_name stdout stdout_only stdout_modules format
        time elapsed color flush retain_runs retain_days unknown :
      Key

-- The rest behind a prefix: `key.rfind("module.", 0) == 0`, `key.substr(7)`
unfoldable pub after_prefix : Bytes → Bytes → Option Bytes
after_prefix [] s = some s
after_prefix (p ∷ ps) [] = none
after_prefix (p ∷ ps) (c ∷ s) = let rest = after_prefix ps s in if p == c then rest else none

abbrev pub module_prefix : Bytes
module_prefix = codes "module."

unfoldable pub key_of : Bytes → Key
unfolding after_prefix
key_of key = elim (after_prefix module_prefix key) [
  | some m ↦ Key.module_level m
  | none ↦
      if beq key (codes "disable")
      then Key.disable
      else if beq key (codes "verbosity")
      then Key.verbosity
      else if beq key (codes "dir")
      then Key.dir
      else if beq key (codes "tag")
      then Key.tag
      else if beq key (codes "file")
      then Key.file
      else if beq key (codes "file.per_module")
      then Key.file_per_module
      else if beq key (codes "file.name")
      then Key.file_name
      else if beq key (codes "stdout")
      then Key.stdout
      else if beq key (codes "stdout.only")
      then Key.stdout_only
      else if beq key (codes "stdout.modules")
      then Key.stdout_modules
      else if beq key (codes "format")
      then Key.format
      else if beq key (codes "time")
      then Key.time
      else if beq key (codes "elapsed")
      then Key.elapsed
      else if beq key (codes "color")
      then Key.color
      else if beq key (codes "flush")
      then Key.flush
      else if beq key (codes "retain.runs")
      then Key.retain_runs
      else if beq key (codes "retain.days")
      then Key.retain_days
      else Key.unknown
]

-- A module's level: an error, no override, or a level.
unfoldable pub apply_module :
    Bytes → Bytes → Option ℤ → Settings → ErrorState → Settings × ErrorState
apply_module m what none s e = (s, bad_value what e)
apply_module m what (some v) s e =
    if eqb_ℤ v k_inherit
    then (record s { module_level = Dict.erase m s.module_level }, e)
    else (record s { module_level = Dict.insert m v s.module_level }, e)

-- The body of the loop of `apply_kv`.
unfoldable pub apply_key :
    Registry → Key → Bytes → Bytes → Settings → ErrorState → Settings × ErrorState
unfolding apply_module
apply_key r (Key.module_level m) key val s e =
    apply_module m (key ++ b'=' ∷ val) (parse_level r val) s e
apply_key r Key.disable key val s e =
    let (b, e') = apply_bool key val s.disabled e in (record s { disabled = b }, e')
apply_key r Key.verbosity key val s e =
    let (l, e') =
      set_level (codes "verbosity=" ++ val) (real_level (parse_level r val)) s.global_level e in
    (record s { global_level = l }, e')
apply_key r Key.dir key val s e = (record s { log_dir = val }, e)
apply_key r Key.tag key val s e = (record s { run_tag = val }, e)
apply_key r Key.file key val s e =
    let ((on, l), e') = apply_output r key val (s.file_enabled, s.file_level) e in
    (record s { file_enabled = on; file_level = l }, e')
apply_key r Key.file_per_module key val s e =
    let (b, e') = apply_bool key val s.file_per_module e in (record s { file_per_module = b }, e')
apply_key r Key.file_name key val s e = (record s { file_name = val }, e)
apply_key r Key.stdout key val s e =
    let ((on, l), e') = apply_output r key val (s.stdout_enabled, s.stdout_level) e in
    (record s { stdout_enabled = on; stdout_level = l }, e')
apply_key r Key.stdout_only key val s e =
    let (b, e') = apply_bool key val s.stdout_only e in (record s { stdout_only = b }, e')
apply_key r Key.stdout_modules key val s e = (record s { stdout_modules = split val b',' }, e)
apply_key r Key.format key val s e = (record s { format = val }, e)
apply_key r Key.time key val s e =
    let (b, e') = apply_bool key val s.enable_time e in (record s { enable_time = b }, e')
apply_key r Key.elapsed key val s e =
    let (b, e') = apply_bool key val s.enable_elapsed e in (record s { enable_elapsed = b }, e')
apply_key r Key.color key val s e = (record s { color = val }, e)
apply_key r Key.flush key val s e =
    let (l, e') =
      set_level (codes "flush=" ++ val) (real_level (parse_level r val)) s.flush_level e in
    (record s { flush_level = l }, e')
apply_key r Key.retain_runs key val s e = (record s { retain_runs = atoi val }, e)
apply_key r Key.retain_days key val s e = (record s { retain_days = atoi val }, e)
apply_key r Key.unknown key val s e = (s, record_error Errc.config_unknown_key (pos 0) key e)

unfoldable pub apply_kv : Registry → Kv → Settings → ErrorState → Settings × ErrorState
unfolding apply_key
apply_kv r [] s e = (s, e)
apply_kv r ((key, val) ∷ kv) s e =
    let (s', e') = apply_key r (key_of key) key val s e in apply_kv r kv s' e'
