-- ===== src/Logger/Policy.antt =====
-- What src/logger.cpp promises of its configuration, without its state: three layers of texts, and what
-- they decide for a record. Modules, thresholds, caches and files are forgotten.
pub mod Verdict
pub mod Refinement
use mathlib.Core.Bool.{not, ◌&&◌}
use simple_logger.Base.{
  ℕ, Bool, true, false, Option, none, some, List, [], ◌∷◌, ◌++◌, Bytes, beq, if◌then◌else◌,
}
use simple_logger.Base.Dict.{lookup}
use simple_logger.Base.Int.{ℤ, leb_ℤ, eqb_ℤ}
use simple_logger.Level.{Registry, k_inherit, k_off}
use simple_logger.Config.{Settings, module_prefix}
use simple_logger.Config.Apply.{resolve, or_set, module_of}
use simple_logger.Config.Layers.{or_else}
use simple_logger.Logger.Reload.{stdout_selects, or_level}
use simple_logger.Logger.State.{Layers}

-- The texts of each layer by key, the level names of now, and those that the last change read.
pub record Policy : Type 0 where
  pub file : Bytes → Option Bytes
  pub env : Bytes → Option Bytes
  pub api : Bytes → Option Bytes
  pub names : Registry
  pub read : Registry

abbrev pub text : Policy → Bytes → Option Bytes
text p k = or_else (p.api k) (or_else (p.env k) (p.file k))

abbrev pub settings_of : Policy → Settings
settings_of p = resolve p.read (text p)

-- A module's own level, or else the global one.
abbrev pub base_level : Policy → Bytes → ℤ
base_level p key =
    or_level (or_set (module_of p.read) (text p (module_prefix ++ key)) none)
      (settings_of p).global_level

abbrev pub output_level : Bool → ℤ → ℤ → ℤ
output_level false level base = k_off
output_level true level base = if eqb_ℤ level k_inherit then base else level

-- Whether a record of the level `v` goes to the file, and whether it goes to stdout.
abbrev pub to_file : Policy → Bytes → ℤ → Bool
to_file p key v =
    let s = settings_of p in leb_ℤ v (output_level s.file_enabled s.file_level (base_level p key))

abbrev pub to_stdout : Policy → Bytes → ℤ → Bool
to_stdout p key v =
    let s = settings_of p in
    let level =
      output_level (s.stdout_enabled && stdout_selects s.stdout_modules key) s.stdout_level
        (base_level p key) in
    not (eqb_ℤ level k_off) && (if s.stdout_only then eqb_ℤ v level else leb_ℤ v level)

-- The policy of a logger's layers, and of the registry that its last reload read.
abbrev pub policy_of : Registry → Layers → Policy
policy_of r l = record {
  file = λ k. lookup k l.file;
  env = λ k. lookup k l.env;
  api = λ k. lookup k l.api;
  names = l.levels;
  read = r;
}
