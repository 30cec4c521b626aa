-- ===== src/Config/Apply/Outputs.antt =====
-- What one key does to each setting of the file and of stdout.
use simple_logger.Base.{◌≡◌, refl, Bool, List, ◌∷◌, ◌++◌, Bytes, ◌==◌, if◌then◌else◌}
use simple_logger.Base.Int.{ℤ}
use simple_logger.Text.{trim}
use simple_logger.Level.{Registry}
use simple_logger.Errors.{ErrorState}
use simple_logger.Config.{Settings, Key, parse_bool, apply_bool, apply_key}
use simple_logger.Config.Keys.{tag}
use simple_logger.Config.Apply.Resolve.{bool_of, text_of, modules_of, output_of}
use simple_logger.Config.Apply.Steps.{set_bool-value, apply_output-value, module_step}

module _ (r : Registry) where
  pub file-apply_key :
      (k : Key) (key val : Bytes) (s : Settings) (e : ErrorState)
      → ◌≡◌ {A = Bool × ℤ}
          (((apply_key r k key val s e).0.file_enabled, (apply_key r k key val s e).0.file_level))
          (if tag k == tag Key.file
            then output_of r val (s.file_enabled, s.file_level)
            else (s.file_enabled, s.file_level))
  unfolding apply_key
  file-apply_key Key.file key val s e = apply_output-value r key val s.file_enabled s.file_level e
  file-apply_key (Key.module_level m) key val s e =
      module_step r (λ (z : Settings). (z.file_enabled, z.file_level)) m key val s e
  file-apply_key _ key val s e = refl

  pub file_per_module-apply_key :
      (k : Key) (key val : Bytes) (s : Settings) (e : ErrorState)
      → ◌≡◌ {A = Bool} ((apply_key r k key val s e).0.file_per_module) (
          if tag k == tag Key.file_per_module
          then bool_of val s.file_per_module
          else s.file_per_module)
  unfolding apply_key apply_bool
  file_per_module-apply_key Key.file_per_module key val s e =
      set_bool-value (key ++ b'=' ∷ trim val) (parse_bool val) s.file_per_module e
  file_per_module-apply_key (Key.module_level m) key val s e =
      module_step r (λ (z : Settings). z.file_per_module) m key val s e
  file_per_module-apply_key _ key val s e = refl

  pub file_name-apply_key :
      (k : Key) (key val : Bytes) (s : Settings) (e : ErrorState)
      → ◌≡◌ {A = Bytes}
          ((apply_key r k key val s e).0.file_name)
          (if tag k == tag Key.file_name then text_of val s.file_name else s.file_name)
  unfolding apply_key
  file_name-apply_key Key.file_name key val s e = refl
  file_name-apply_key (Key.module_level m) key val s e =
      module_step r (λ (z : Settings). z.file_name) m key val s e
  file_name-apply_key _ key val s e = refl

  pub stdout-apply_key :
      (k : Key) (key val : Bytes) (s : Settings) (e : ErrorState)
      → ◌≡◌ {A = Bool × ℤ}
          ((
            (apply_key r k key val s e).0.stdout_enabled,
            (apply_key r k key val s e).0.stdout_level,
          ))
          (if tag k == tag Key.stdout
            then output_of r val (s.stdout_enabled, s.stdout_level)
            else (s.stdout_enabled, s.stdout_level))
  unfolding apply_key
  stdout-apply_key Key.stdout key val s e =
      apply_output-value r key val s.stdout_enabled s.stdout_level e
  stdout-apply_key (Key.module_level m) key val s e =
      module_step r (λ (z : Settings). (z.stdout_enabled, z.stdout_level)) m key val s e
  stdout-apply_key _ key val s e = refl

  pub stdout_only-apply_key :
      (k : Key) (key val : Bytes) (s : Settings) (e : ErrorState)
      → ◌≡◌ {A = Bool}
          ((apply_key r k key val s e).0.stdout_only)
          (if tag k == tag Key.stdout_only then bool_of val s.stdout_only else s.stdout_only)
  unfolding apply_key apply_bool
  stdout_only-apply_key Key.stdout_only key val s e =
      set_bool-value (key ++ b'=' ∷ trim val) (parse_bool val) s.stdout_only e
  stdout_only-apply_key (Key.module_level m) key val s e =
      module_step r (λ (z : Settings). z.stdout_only) m key val s e
  stdout_only-apply_key _ key val s e = refl

  pub stdout_modules-apply_key :
      (k : Key) (key val : Bytes) (s : Settings) (e : ErrorState)
      → ◌≡◌ {A = List Bytes} ((apply_key r k key val s e).0.stdout_modules) (
          if tag k == tag Key.stdout_modules
          then modules_of val s.stdout_modules
          else s.stdout_modules)
  unfolding apply_key
  stdout_modules-apply_key Key.stdout_modules key val s e = refl
  stdout_modules-apply_key (Key.module_level m) key val s e =
      module_step r (λ (z : Settings). z.stdout_modules) m key val s e
  stdout_modules-apply_key _ key val s e = refl
