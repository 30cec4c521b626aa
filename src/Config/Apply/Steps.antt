-- ===== src/Config/Apply/Steps.antt =====
-- What one key does to each setting.
use simple_logger.Base.{
  ◌≡◌, refl, ap, Bool, Option, none, some, [], ◌∷◌, ◌++◌, arith, Bytes, codes, ◌==◌, if◌then◌else◌,
}
use simple_logger.Base.Int.{ℤ}
use simple_logger.Text.{trim}
use simple_logger.Level.{Registry, parse_level}
use simple_logger.Errors.{ErrorState}
use simple_logger.Config.{
  Settings, Key, parse_bool, real_level, set_bool, set_level, apply_bool, apply_output,
  apply_module, apply_key,
}
use simple_logger.Config.Keys.{tag}
use simple_logger.Config.Apply.Resolve.{or_old, bool_of, level_of, text_of, number_of, output_of}

pub set_bool-value :
    (what : Bytes) (o : Option Bool) (old : Bool) (e : ErrorState)
    → (set_bool what o old e).0 ≡ or_old o old
set_bool-value what none old e = refl
set_bool-value what (some b) old e = refl

pub set_level-value :
    (what : Bytes) (o : Option ℤ) (old : ℤ) (e : ErrorState)
    → (set_level what o old e).0 ≡ or_old o old
set_level-value what none old e = refl
set_level-value what (some b) old e = refl

pub apply_output-value :
    (r : Registry) (key val : Bytes) (on : Bool) (level : ℤ) (e : ErrorState)
    → (apply_output r key val (on, level) e).0 ≡ output_of r val (on, level)
unfolding apply_output
apply_output-value r key val on level e =
    ground (arith, set_level-value (key ++ b'=' ∷ trim val) (parse_level r (trim val)) level e)

-- A module's level changes no other setting.
apply_module_keeps :
    (m what : Bytes) (o : Option ℤ) (s : Settings) (e : ErrorState)
    → record (apply_module m what o s e).0 { module_level = [] } ≡ record s { module_level = [] }
unfolding apply_module
apply_module_keeps m what none s e = refl
apply_module_keeps m what (some v) s e = ground arith

module _ (r : Registry) where
  -- So every field but that of the modules' levels reads the same.
  pub module_step :
      {A : Type 0} (field : Settings → A) (m key val : Bytes) (s : Settings) (e : ErrorState)
      → field (record (apply_key r (Key.module_level m) key val s e).0 { module_level = [] })
        ≡ field (record s { module_level = [] })
  unfolding apply_key
  module_step field m key val s e =
      ap field (apply_module_keeps m (key ++ b'=' ∷ val) (parse_level r val) s e)

  pub disabled-apply_key :
      (k : Key) (key val : Bytes) (s : Settings) (e : ErrorState)
      → ◌≡◌ {A = Bool}
          ((apply_key r k key val s e).0.disabled)
          (if tag k == tag Key.disable then bool_of val s.disabled else s.disabled)
  unfolding apply_key apply_bool
  disabled-apply_key Key.disable key val s e =
      set_bool-value (key ++ b'=' ∷ trim val) (parse_bool val) s.disabled e
  disabled-apply_key (Key.module_level m) key val s e =
      module_step (λ (z : Settings). z.disabled) m key val s e
  disabled-apply_key _ key val s e = refl

  pub global_level-apply_key :
      (k : Key) (key val : Bytes) (s : Settings) (e : ErrorState)
      → ◌≡◌ {A = ℤ}
          ((apply_key r k key val s e).0.global_level)
          (if tag k == tag Key.verbosity then level_of r val s.global_level else s.global_level)
  unfolding apply_key
  global_level-apply_key Key.verbosity key val s e =
      set_level-value (codes "verbosity=" ++ val) (real_level (parse_level r val)) s.global_level e
  global_level-apply_key (Key.module_level m) key val s e =
      module_step (λ (z : Settings). z.global_level) m key val s e
  global_level-apply_key _ key val s e = refl

  pub log_dir-apply_key :
      (k : Key) (key val : Bytes) (s : Settings) (e : ErrorState)
      → ◌≡◌ {A = Bytes}
          ((apply_key r k key val s e).0.log_dir)
          (if tag k == tag Key.dir then text_of val s.log_dir else s.log_dir)
  unfolding apply_key
  log_dir-apply_key Key.dir key val s e = refl
  log_dir-apply_key (Key.module_level m) key val s e =
      module_step (λ (z : Settings). z.log_dir) m key val s e
  log_dir-apply_key _ key val s e = refl

  pub run_tag-apply_key :
      (k : Key) (key val : Bytes) (s : Settings) (e : ErrorState)
      → ◌≡◌ {A = Bytes}
          ((apply_key r k key val s e).0.run_tag)
          (if tag k == tag Key.tag then text_of val s.run_tag else s.run_tag)
  unfolding apply_key
  run_tag-apply_key Key.tag key val s e = refl
  run_tag-apply_key (Key.module_level m) key val s e =
      module_step (λ (z : Settings). z.run_tag) m key val s e
  run_tag-apply_key _ key val s e = refl

  pub format-apply_key :
      (k : Key) (key val : Bytes) (s : Settings) (e : ErrorState)
      → ◌≡◌ {A = Bytes}
          ((apply_key r k key val s e).0.format)
          (if tag k == tag Key.format then text_of val s.format else s.format)
  unfolding apply_key
  format-apply_key Key.format key val s e = refl
  format-apply_key (Key.module_level m) key val s e =
      module_step (λ (z : Settings). z.format) m key val s e
  format-apply_key _ key val s e = refl

  pub enable_time-apply_key :
      (k : Key) (key val : Bytes) (s : Settings) (e : ErrorState)
      → ◌≡◌ {A = Bool}
          ((apply_key r k key val s e).0.enable_time)
          (if tag k == tag Key.time then bool_of val s.enable_time else s.enable_time)
  unfolding apply_key apply_bool
  enable_time-apply_key Key.time key val s e =
      set_bool-value (key ++ b'=' ∷ trim val) (parse_bool val) s.enable_time e
  enable_time-apply_key (Key.module_level m) key val s e =
      module_step (λ (z : Settings). z.enable_time) m key val s e
  enable_time-apply_key _ key val s e = refl

  pub enable_elapsed-apply_key :
      (k : Key) (key val : Bytes) (s : Settings) (e : ErrorState)
      → ◌≡◌ {A = Bool}
          ((apply_key r k key val s e).0.enable_elapsed)
          (if tag k == tag Key.elapsed then bool_of val s.enable_elapsed else s.enable_elapsed)
  unfolding apply_key apply_bool
  enable_elapsed-apply_key Key.elapsed key val s e =
      set_bool-value (key ++ b'=' ∷ trim val) (parse_bool val) s.enable_elapsed e
  enable_elapsed-apply_key (Key.module_level m) key val s e =
      module_step (λ (z : Settings). z.enable_elapsed) m key val s e
  enable_elapsed-apply_key _ key val s e = refl

  pub color-apply_key :
      (k : Key) (key val : Bytes) (s : Settings) (e : ErrorState)
      → ◌≡◌ {A = Bytes}
          ((apply_key r k key val s e).0.color)
          (if tag k == tag Key.color then text_of val s.color else s.color)
  unfolding apply_key
  color-apply_key Key.color key val s e = refl
  color-apply_key (Key.module_level m) key val s e =
      module_step (λ (z : Settings). z.color) m key val s e
  color-apply_key _ key val s e = refl

  pub flush_level-apply_key :
      (k : Key) (key val : Bytes) (s : Settings) (e : ErrorState)
      → ◌≡◌ {A = ℤ}
          ((apply_key r k key val s e).0.flush_level)
          (if tag k == tag Key.flush then level_of r val s.flush_level else s.flush_level)
  unfolding apply_key
  flush_level-apply_key Key.flush key val s e =
      set_level-value (codes "flush=" ++ val) (real_level (parse_level r val)) s.flush_level e
  flush_level-apply_key (Key.module_level m) key val s e =
      module_step (λ (z : Settings). z.flush_level) m key val s e
  flush_level-apply_key _ key val s e = refl

  pub retain_runs-apply_key :
      (k : Key) (key val : Bytes) (s : Settings) (e : ErrorState)
      → ◌≡◌ {A = ℤ}
          ((apply_key r k key val s e).0.retain_runs)
          (if tag k == tag Key.retain_runs then number_of val s.retain_runs else s.retain_runs)
  unfolding apply_key
  retain_runs-apply_key Key.retain_runs key val s e = refl
  retain_runs-apply_key (Key.module_level m) key val s e =
      module_step (λ (z : Settings). z.retain_runs) m key val s e
  retain_runs-apply_key _ key val s e = refl

  pub retain_days-apply_key :
      (k : Key) (key val : Bytes) (s : Settings) (e : ErrorState)
      → ◌≡◌ {A = ℤ}
          ((apply_key r k key val s e).0.retain_days)
          (if tag k == tag Key.retain_days then number_of val s.retain_days else s.retain_days)
  unfolding apply_key
  retain_days-apply_key Key.retain_days key val s e = refl
  retain_days-apply_key (Key.module_level m) key val s e =
      module_step (λ (z : Settings). z.retain_days) m key val s e
  retain_days-apply_key _ key val s e = refl
