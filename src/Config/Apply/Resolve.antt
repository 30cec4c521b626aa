-- ===== src/Config/Apply/Resolve.antt =====
-- The settings that a map of texts stands for, setting by setting.
use mathlib.Core.Bool.{◌||◌}
use simple_logger.Base.{
  Bool, true, false, Option, none, some, List, [], ◌∷◌, Bytes, codes, beq, if◌then◌else◌,
}
use simple_logger.Base.Int.{ℤ}
use simple_logger.Text.{trim, split}
use simple_logger.Text.Decimal.{atoi}
use simple_logger.Level.{Registry, parse_level, k_inherit}
use simple_logger.Config.{Settings, default_settings, parse_bool, real_level}

-- The parsed value, or the old one if there is none.
abbrev pub or_old {ℓ} : {A : Type ℓ} → Option A → A → A
or_old none old = old
or_old (some v) old = v

-- The setting of a key that is not given is the old one.
abbrev pub or_set {ℓ} : {A : Type ℓ} → (Bytes → A → A) → Option Bytes → A → A
or_set u none old = old
or_set u (some val) old = u val old

abbrev pub bool_of : Bytes → Bool → Bool
bool_of val old = or_old (parse_bool val) old

abbrev pub level_of : Registry → Bytes → ℤ → ℤ
level_of r val old = or_old (real_level (parse_level r val)) old

abbrev pub text_of : Bytes → Bytes → Bytes
text_of val old = val

abbrev pub number_of : Bytes → ℤ → ℤ
number_of val old = atoi val

abbrev pub modules_of : Bytes → List Bytes → List Bytes
modules_of val old = split val b','

abbrev is_nil : Bytes → Bool
is_nil [] = true
is_nil (c ∷ s) = false

-- "off" turns an output off, "on" or nothing lets it follow the module, a level fixes it.
abbrev pub output_of : Registry → Bytes → Bool × ℤ → Bool × ℤ
output_of r val (on, level) =
    let t = trim val in
    if beq t (codes "off")
    then (false, level)
    else if beq t (codes "on") || is_nil t
    then (true, k_inherit)
    else (true, or_old (parse_level r t) level)

-- The settings that the texts `get` of the keys stand for, but for the modules' levels.
abbrev pub resolve : Registry → (Bytes → Option Bytes) → Settings
resolve r get =
    let file = or_set (output_of r) (get (codes "file")) (true, k_inherit) in
    let stdout = or_set (output_of r) (get (codes "stdout")) (true, k_inherit) in
    record default_settings {
      disabled = or_set (bool_of) (get (codes "disable")) default_settings.disabled;
      global_level = or_set (level_of r) (get (codes "verbosity")) default_settings.global_level;
      log_dir = or_set (text_of) (get (codes "dir")) default_settings.log_dir;
      run_tag = or_set (text_of) (get (codes "tag")) default_settings.run_tag;
      file_enabled = file.0;
      file_level = file.1;
      file_per_module =
          or_set (bool_of) (get (codes "file.per_module")) default_settings.file_per_module;
      file_name = or_set (text_of) (get (codes "file.name")) default_settings.file_name;
      stdout_enabled = stdout.0;
      stdout_level = stdout.1;
      stdout_only = or_set (bool_of) (get (codes "stdout.only")) default_settings.stdout_only;
      stdout_modules =
          or_set (modules_of) (get (codes "stdout.modules")) default_settings.stdout_modules;
      format = or_set (text_of) (get (codes "format")) default_settings.format;
      enable_time = or_set (bool_of) (get (codes "time")) default_settings.enable_time;
      enable_elapsed = or_set (bool_of) (get (codes "elapsed")) default_settings.enable_elapsed;
      color = or_set (text_of) (get (codes "color")) default_settings.color;
      flush_level = or_set (level_of r) (get (codes "flush")) default_settings.flush_level;
      retain_runs = or_set (number_of) (get (codes "retain.runs")) default_settings.retain_runs;
      retain_days = or_set (number_of) (get (codes "retain.days")) default_settings.retain_days;
    }
