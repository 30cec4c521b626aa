-- ===== src/Logger/Api.antt =====
-- The calls of src/logger.cpp that configure the logger: each writes texts into the layer of the calls
-- and reloads. A null text is the empty one.
pub mod Setters
pub mod Configure
use simple_logger.Base.{
  ℕ, Bool, true, false, Option, none, some, List, [], ◌∷◌, ◌++◌, Bytes, codes, ◌==◌, if◌then◌else◌,
  length,
}
use simple_logger.Base.Dict
use simple_logger.Base.Dict.{Dict}
use simple_logger.Base.Int.{ℤ, pos, eqb_ℤ}
use simple_logger.Text.{join}
use simple_logger.Text.Decimal.{to_string}
use simple_logger.Level.{Level, Registry, k_inherit, level_name}
use simple_logger.Errors.{Errc, ErrorState, Call}
use simple_logger.Format.{TimeText}
use simple_logger.Os.{Os, Outcome}
use simple_logger.RunDir.{Run}
use simple_logger.Config.{Kv, module_prefix}
use simple_logger.Config.File.{read_config_file, find_config_path}
use simple_logger.Config.Env.{read_env}
use simple_logger.Logger.{Logger, OpenErr, new_logger}
use simple_logger.Logger.Reload.{reload_locked}
use simple_logger.Logger.Files.{World, ensure_run_open}
use simple_logger.Logger.Emit.{report_open}

abbrev pub bool_text : Bool → Bytes
bool_text true = codes "true"
bool_text false = codes "false"

-- `level_kv`
unfoldable pub level_kv : Registry → ℤ → Bytes
level_kv r v = if eqb_ℤ v k_inherit then codes "inherit" else level_name r v

-- An output's level: "on" for one that follows its module.
unfoldable pub output_text : Registry → ℤ → Bytes
output_text r v = if eqb_ℤ v k_inherit then codes "on" else level_name r v

abbrev pub output_or_off : Registry → Bool → ℤ → Bytes
output_or_off r false v = codes "off"
output_or_off r true v = output_text r v

-- The setters, by the key and the text that they give to `set_api`.
pub data Setter : Type 0 where
  set_verbosity set_stdout_verbosity set_file_verbosity set_flush_level : ℤ → Setter
  set_module_verbosity : Bytes → ℤ → Setter
  set_disabled set_stdout_only set_file_per_module enable_time enable_elapsed : Bool → Setter
  set_log_dir set_run_tag set_file_name set_format : Bytes → Setter
  set_stdout_modules : List Bytes → Setter
  stdout_off file_off : Setter

abbrev pub key_text : Registry → Setter → Bytes × Bytes
key_text r (Setter.set_verbosity v) = (codes "verbosity", level_kv r v)
key_text r (Setter.set_module_verbosity m v) = (module_prefix ++ m, level_kv r v)
key_text r (Setter.set_disabled off) = (codes "disable", bool_text off)
key_text r (Setter.set_log_dir path) = (codes "dir", path)
key_text r (Setter.set_run_tag tag) = (codes "tag", tag)
key_text r (Setter.set_stdout_verbosity v) = (codes "stdout", output_text r v)
key_text r (Setter.set_stdout_only only) = (codes "stdout.only", bool_text only)
key_text r (Setter.set_stdout_modules modules) = (codes "stdout.modules", join modules b',')
key_text r Setter.stdout_off = (codes "stdout", codes "off")
key_text r (Setter.set_file_verbosity v) = (codes "file", output_text r v)
key_text r (Setter.set_file_per_module per_module) = (codes "file.per_module", bool_text per_module)
key_text r (Setter.set_file_name name) = (codes "file.name", name)
key_text r Setter.file_off = (codes "file", codes "off")
key_text r (Setter.set_format text) = (codes "format", text)
key_text r (Setter.enable_time on) = (codes "time", bool_text on)
key_text r (Setter.enable_elapsed on) = (codes "elapsed", bool_text on)
key_text r (Setter.set_flush_level v) = (codes "flush", level_name r v)

-- `set_api`; `tty` is whether stdout is a terminal.
unfoldable pub set_api : Bool → Bytes → Bytes → ErrorState × Logger → ErrorState × Logger
set_api tty key value (e, lg) =
    reload_locked tty e (record lg { api_kv = Dict.insert key value lg.api_kv })

unfoldable pub set : Bool → Setter → ErrorState × Logger → ErrorState × Logger
set tty setter (e, lg) =
    let (key, value) = key_text lg.levels setter in set_api tty key value (e, lg)

-- `Config` and `OutputConfig`
pub record Config : Type 0 where
  pub disabled : Bool
  pub verbosity : ℤ
  pub module_verbosity : Dict ℤ
  pub log_dir : Bytes
  pub run_tag : Bytes
  pub file_enabled : Bool
  pub file_verbosity : ℤ
  pub file_per_module : Bool
  pub file_name : Bytes
  pub out_enabled : Bool
  pub out_verbosity : ℤ
  pub out_only : Bool
  pub out_modules : List Bytes
  pub format : Bytes
  pub enable_time : Bool
  pub enable_elapsed : Bool
  pub color : Bytes
  pub flush_level : ℤ
  pub retain_runs : ℤ
  pub retain_days : ℤ

-- The assignments of `configure`, in their order.
abbrev pub module_texts : Registry → Dict ℤ → List (Bytes × Bytes)
module_texts r [] = []
module_texts r ((m, v) ∷ ms) = (module_prefix ++ m, level_name r v) ∷ module_texts r ms

abbrev pub field_texts : Registry → Config → List (Bytes × Bytes)
field_texts r c =
    (codes "dir", c.log_dir)
    ∷ (codes "tag", c.run_tag)
    ∷ (codes "file", output_or_off r c.file_enabled c.file_verbosity)
    ∷ (codes "file.per_module", bool_text c.file_per_module)
    ∷ (codes "file.name", c.file_name)
    ∷ (codes "stdout", output_or_off r c.out_enabled c.out_verbosity)
    ∷ (codes "stdout.only", bool_text c.out_only)
    ∷ (codes "stdout.modules", join c.out_modules b',')
    ∷ (codes "format", c.format)
    ∷ (codes "time", bool_text c.enable_time)
    ∷ (codes "elapsed", bool_text c.enable_elapsed)
    ∷ (codes "color", c.color)
    ∷ (codes "flush", level_name r c.flush_level)
    ∷ (codes "retain.runs", to_string c.retain_runs)
    ∷ (codes "retain.days", to_string c.retain_days)
    ∷ []

abbrev pub config_texts : Registry → Config → List (Bytes × Bytes)
config_texts r c =
    (codes "disable", bool_text c.disabled)
    ∷ (codes "verbosity", level_kv r c.verbosity)
    ∷ (module_texts r c.module_verbosity ++ field_texts r c)

unfoldable pub assign_all : List (Bytes × Bytes) → Kv → Kv
assign_all [] api = api
assign_all ((k, v) ∷ texts) api = assign_all texts (Dict.insert k v api)

unfoldable pub configure : Bool → Config → ErrorState × Logger → ErrorState × Logger
configure tty c (e, lg) =
    reload_locked tty e (record lg { api_kv = assign_all (config_texts lg.levels c) lg.api_kv })

-- What opens a file and what the environment holds are parameters, as in `Config.File` and `Config.Env`.
unfoldable pub load_file :
    Bool → (Bytes → Outcome Bytes) → Bytes → ErrorState × Logger → ErrorState × Logger
load_file tty opens path (e, lg) =
    let (kv, e') = read_config_file opens path e in
    reload_locked tty e' (record lg { file_kv = kv })

unfoldable pub load_env : Bool → (Bytes → Option Bytes) → ErrorState × Logger → ErrorState × Logger
load_env tty getenv (e, lg) = reload_locked tty e (record lg { env_kv = read_env getenv })

-- The constructor of `Logger`, but for its signal and fork handlers.
unfoldable pub construct :
    Bool
    → ℤ
    → (Bytes → Outcome Bytes)
    → (Bytes → Option Bytes)
    → (Bytes → Bool)
    → ErrorState
    → ErrorState × Logger
construct tty now opens getenv readable e =
    let (kv, e') = read_config_file opens (find_config_path getenv readable) e in
    reload_locked tty e' (record (new_logger now) { file_kv = kv; env_kv = read_env getenv })

-- How `init` ends: it returns, or throws the error.
pub data Init : Type 0 where
  ready : Init
  thrown : Errc → Bytes → Init

abbrev pub init_result : Bool → OpenErr → Init
init_result true oe = ready
init_result false oe = thrown oe.code oe.detail

module _ (os : Os) (tt_ : TimeText) (sort : List Run → List Run)
    (call : Call (Logger × os.State)) where
  unfoldable pub init : World os tt_ sort → Init × World os tt_ sort
  init w =
      let ((ok, oe), w') = ensure_run_open os tt_ sort w in
      (init_result ok oe, report_open os tt_ sort call oe w')

-- The testing hooks of the logger.
unfoldable pub set_start_epoch_nanos : Bool → ℤ → ErrorState × Logger → ErrorState × Logger
set_start_epoch_nanos tty nanos (e, lg) = reload_locked tty e (record lg { start_epoch_ns = nanos })

unfoldable pub format_spec_count : Logger → ℕ
format_spec_count lg = length lg.specs
