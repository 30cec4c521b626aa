-- ===== src/Logger/State.antt =====
-- The well-formed logger of src/logger.cpp, between two calls: its settings, thresholds and format beside
-- its layers, and the descriptors that it keeps beside the files that it has open.
pub mod Configured
pub mod Held
pub mod Opening
pub mod Ending
pub mod Admission
pub mod Emission
pub mod Steps
use mathlib.Core.Bool.{◌||◌}
use simple_logger.Base.{
  ℕ, ◌≡◌, Bool, true, false, Option, none, some, List, [], ◌∷◌, ◌++◌, Bytes, All, min, take, length,
}
use simple_logger.Base.Dict.{Dict, lookup, IsSorted}
use simple_logger.Base.Int.{ℤ, pos, eqb_ℤ, ltb_ℤ}
use simple_logger.Level.{Registry}
use simple_logger.Format.{FormatSpec, parse_format}
use simple_logger.Config.{Kv, Settings, module_prefix}
use simple_logger.Config.Apply.{resolve, or_set, module_of}
use simple_logger.Config.Layers.{or_else}
use simple_logger.Logger.{Module, Logger}
use simple_logger.Logger.Reload.Thresholds.{AllCurrent}
use simple_logger.Logger.Reload.Cache.{IsLong, IsCached}
use simple_logger.Logger.Api.Setters.{without_modules}

-- The members that configure the logger.
pub record Configuration : Type 0 where
  pub file_kv : Kv
  pub env_kv : Kv
  pub api_kv : Kv
  pub settings : Settings
  pub fmt_ptr : Option FormatSpec
  pub spec_cache : Dict FormatSpec
  pub flush_level : ℤ
  pub start_epoch_ns : ℤ
  pub disabled : Bool
  pub modules : Dict Module

abbrev pub configuration : Logger → Configuration
configuration lg = record {
  file_kv = lg.file_kv;
  env_kv = lg.env_kv;
  api_kv = lg.api_kv;
  settings = lg.settings;
  fmt_ptr = lg.fmt_ptr;
  spec_cache = lg.spec_cache;
  flush_level = lg.flush_level;
  start_epoch_ns = lg.start_epoch_ns;
  disabled = lg.disabled;
  modules = lg.modules;
}

-- The text that the layers give a key: the calls', or else the environment's, or else the file's.
abbrev pub layered : Kv → Kv → Kv → Bytes → Option Bytes
layered file env api k = or_else (lookup k api) (or_else (lookup k env) (lookup k file))

-- The settings are those of the layers, the modules' levels included, with the level names of `r`.
pub record AreResolved (r : Registry) (get : Bytes → Option Bytes) (s : Settings) : Type 0 where
  pub plain : without_modules s ≡ resolve r get
  pub by_module :
      (m : Bytes) → lookup m s.module_level ≡ or_set (module_of r) (get (module_prefix ++ m)) none

-- `r` is the registry that the last reload read.
pub record IsConfigured (r : Registry) (c : Configuration) : Type 0 where
  pub file : IsSorted c.file_kv
  pub env : IsSorted c.env_kv
  pub api : IsSorted c.api_kv
  pub long : IsLong c.start_epoch_ns
  pub cached : IsCached c.spec_cache
  pub resolved : AreResolved r (layered c.file_kv c.env_kv c.api_kv) c.settings
  pub current : AllCurrent c.settings c.modules
  pub published :
      c.fmt_ptr
      ≡ some (
          parse_format c.settings.format c.settings.enable_time c.settings.enable_elapsed
            c.start_epoch_ns)
  pub obeyed : (c.disabled ≡ c.settings.disabled) × (c.flush_level ≡ c.settings.flush_level)

-- The members that keep descriptors.
pub record Descriptors : Type 0 where
  pub modules : Dict Module
  pub shared_fd : ℤ
  pub open_fds : List ℤ
  pub crash_fds : List ℤ
  pub crash_fd_count : ℕ

abbrev pub descriptors : Logger → Descriptors
descriptors lg = record {
  modules = lg.modules;
  shared_fd = lg.shared_fd;
  open_fds = lg.open_fds;
  crash_fds = lg.crash_fds;
  crash_fd_count = lg.crash_fd_count;
}

abbrev pub has_fd : ℤ → List ℤ → Bool
has_fd fd [] = false
has_fd fd (f ∷ fds) = eqb_ℤ fd f || has_fd fd fds

-- No descriptor, or one of an open file.
abbrev pub is_held : List ℤ → ℤ → Bool
is_held fds fd = ltb_ℤ fd (pos 0) || has_fd fd fds

abbrev pub IsHeldBy : List ℤ → Bytes × Module → Type 0
IsHeldBy fds (key, ms) = is_held fds ms.file_fd ≡ true

-- No module keeps a descriptor that was closed, and the crash handler's table has the first open files.
pub record IsHolding (d : Descriptors) : Type 0 where
  pub shared : is_held d.open_fds d.shared_fd ≡ true
  pub kept : All (IsHeldBy d.open_fds) d.modules
  pub counted : d.crash_fd_count ≡ min (length d.open_fds) 64
  pub mirrored : take d.crash_fd_count d.crash_fds ≡ take 64 d.open_fds

-- The layers and the registry that the logger has.
pub record Layers : Type 0 where
  pub file : Kv
  pub env : Kv
  pub api : Kv
  pub levels : Registry

abbrev pub layers_of : Logger → Layers
layers_of lg = record { file = lg.file_kv; env = lg.env_kv; api = lg.api_kv; levels = lg.levels }

-- A logger between two calls, with the layers `l`. Its registry may have grown since the last reload,
-- which read `r`.
abbrev pub IsWellFormed : Registry → Layers → Logger → Type 0
IsWellFormed r l lg =
    IsConfigured r (configuration lg) × IsHolding (descriptors lg) × (layers_of lg ≡ l)

-- Well formed by a registry and layers of which `Fits` holds.
abbrev pub IsSoundIn : (Registry → Layers → Type 0) → Logger → Type 0
IsSoundIn Fits lg = (r : Registry) × (l : Layers) × Fits r l × IsWellFormed r l lg

-- Well formed by its layers and the registry of the last reload.
abbrev pub IsSound : Logger → Type 0
IsSound = IsSoundIn (λ r l. Unit {0})
