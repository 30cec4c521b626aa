-- ===== src/Config/Apply/Fields.antt =====
-- The whole loop, setting by setting.
use simple_logger.Base.{
  ◌≡◌, refl, ap, ◌∙◌, Bool, true, false, Option, none, some, [], ◌∷◌, arith, Bytes, beq, beq_iff,
  ◌==◌, if◌then◌else◌,
}
use simple_logger.Base.Dict
use simple_logger.Base.Dict.{lookup, lookup-Above, IsSorted}
use simple_logger.Level.{Registry}
use simple_logger.Errors.{ErrorState}
use simple_logger.Config.{Kv, Settings, default_settings, Key, key_of, apply_key, apply_kv}
use simple_logger.Config.Keys.{tag, name, IsScalar, tag-key_of}
use simple_logger.Config.Apply.Resolve.{
  or_set, bool_of, level_of, text_of, number_of, modules_of, output_of, resolve,
}
use simple_logger.Config.Apply.Steps.{
  disabled-apply_key, global_level-apply_key, log_dir-apply_key, run_tag-apply_key,
  format-apply_key, enable_time-apply_key, enable_elapsed-apply_key, color-apply_key,
  flush_level-apply_key, retain_runs-apply_key, retain_days-apply_key,
}
use simple_logger.Config.Apply.Outputs.{
  file-apply_key, file_per_module-apply_key, file_name-apply_key, stdout-apply_key,
  stdout_only-apply_key, stdout_modules-apply_key,
}

or_set-cons :
    {A : Type 0} (u : Bytes → A → A) (same : Bool) (val : Bytes) (later : Option Bytes) (x : A)
    → (same ≡ true → later ≡ none)
    → or_set u later (if same then u val x else x) ≡ or_set u (if same then some val else later) x
or_set-cons u true val later x once = ap (λ o. or_set u o (u val x)) (once refl)
or_set-cons u false val later x once = refl

-- A setting that a key `k` updates by `u`, and no other key changes.
module _ (r : Registry) {A : Type 0} (get : Settings → A) (k : Key) (scalar : IsScalar (tag k))
    (u : Bytes → A → A)
    (step : (j : Key) (key val : Bytes) (s : Settings) (e : ErrorState)
      → get (apply_key r j key val s e).0 ≡ (if tag j == tag k then u val (get s) else get s)) where
  step_key :
      (key val : Bytes) (s : Settings) (e : ErrorState)
      → get (apply_key r (key_of key) key val s e).0
        ≡ (if beq key (name k) then u val (get s) else get s)
  step_key key val s e =
      step (key_of key) key val s e
      ∙ ap (λ b. if b then u val (get s) else get s) (tag-key_of key k scalar)

  lookup_later :
      (key : Bytes) (kv : Kv)
      → Dict.Above key kv
      → beq key (name k) ≡ true
      → lookup (name k) kv ≡ none
  lookup_later key kv above same = ground (arith, beq_iff key (name k), lookup-Above key kv above)

  apply_kv-field :
      (kv : Kv) (s : Settings) (e : ErrorState)
      → IsSorted kv
      → get (apply_kv r kv s e).0 ≡ or_set u (lookup (name k) kv) (get s)
  unfolding apply_kv lookup
  apply_kv-field [] s e sorted = refl
  apply_kv-field ((key, val) ∷ kv) s e sorted =
      let now = apply_key r (key_of key) key val s e in
      apply_kv-field kv now.0 now.1 sorted.1
      ∙ ap (or_set u (lookup (name k) kv)) (step_key key val s e)
      ∙ or_set-cons u (beq key (name k)) val (lookup (name k) kv) (get s)
          (lookup_later key kv sorted.0)

-- For a sorted map of keys and texts, the settings that `apply_kv` makes of the defaults are, but for the
-- modules' levels, those that `resolve` reads off the map: each is decided by its own key alone.
pub apply_kv-resolve :
    (r : Registry) (kv : Kv) (e : ErrorState)
    → IsSorted kv
    → record (apply_kv r kv default_settings e).0 { module_level = [] }
      ≡ resolve r (λ k. lookup k kv)
apply_kv-resolve r kv e sorted =
    let file =
      apply_kv-field r (λ s. (s.file_enabled, s.file_level)) Key.file (omega arith, omega arith)
        (output_of r) (file-apply_key r) kv default_settings e sorted in
    let stdout =
      apply_kv-field r (λ s. (s.stdout_enabled, s.stdout_level)) Key.stdout
        (omega arith, omega arith) (output_of r) (stdout-apply_key r) kv default_settings e
        sorted in
    λ i. record default_settings {
      file_enabled = (file i).0;
      file_level = (file i).1;
      stdout_enabled = (stdout i).0;
      stdout_level = (stdout i).1;
      disabled =
          apply_kv-field r (λ s. s.disabled) Key.disable (omega arith, omega arith) bool_of
            (disabled-apply_key r) kv default_settings e sorted i;
      global_level =
          apply_kv-field r (λ s. s.global_level) Key.verbosity (omega arith, omega arith)
            (level_of r) (global_level-apply_key r) kv default_settings e sorted i;
      log_dir =
          apply_kv-field r (λ s. s.log_dir) Key.dir (omega arith, omega arith) text_of
            (log_dir-apply_key r) kv default_settings e sorted i;
      run_tag =
          apply_kv-field r (λ s. s.run_tag) Key.tag (omega arith, omega arith) text_of
            (run_tag-apply_key r) kv default_settings e sorted i;
      file_per_module =
          apply_kv-field r (λ s. s.file_per_module) Key.file_per_module (omega arith, omega arith)
            bool_of (file_per_module-apply_key r) kv default_settings e sorted i;
      file_name =
          apply_kv-field r (λ s. s.file_name) Key.file_name (omega arith, omega arith) text_of
            (file_name-apply_key r) kv default_settings e sorted i;
      stdout_only =
          apply_kv-field r (λ s. s.stdout_only) Key.stdout_only (omega arith, omega arith) bool_of
            (stdout_only-apply_key r) kv default_settings e sorted i;
      stdout_modules =
          apply_kv-field r (λ s. s.stdout_modules) Key.stdout_modules (omega arith, omega arith)
            modules_of (stdout_modules-apply_key r) kv default_settings e sorted i;
      format =
          apply_kv-field r (λ s. s.format) Key.format (omega arith, omega arith) text_of
            (format-apply_key r) kv default_settings e sorted i;
      enable_time =
          apply_kv-field r (λ s. s.enable_time) Key.time (omega arith, omega arith) bool_of
            (enable_time-apply_key r) kv default_settings e sorted i;
      enable_elapsed =
          apply_kv-field r (λ s. s.enable_elapsed) Key.elapsed (omega arith, omega arith) bool_of
            (enable_elapsed-apply_key r) kv default_settings e sorted i;
      color =
          apply_kv-field r (λ s. s.color) Key.color (omega arith, omega arith) text_of
            (color-apply_key r) kv default_settings e sorted i;
      flush_level =
          apply_kv-field r (λ s. s.flush_level) Key.flush (omega arith, omega arith) (level_of r)
            (flush_level-apply_key r) kv default_settings e sorted i;
      retain_runs =
          apply_kv-field r (λ s. s.retain_runs) Key.retain_runs (omega arith, omega arith) number_of
            (retain_runs-apply_key r) kv default_settings e sorted i;
      retain_days =
          apply_kv-field r (λ s. s.retain_days) Key.retain_days (omega arith, omega arith) number_of
            (retain_days-apply_key r) kv default_settings e sorted i;
    }
