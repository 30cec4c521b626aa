-- ===== src/Logger/Policy/Verdict.antt =====
-- The thresholds of a logger's modules of src/logger.cpp beside what its policy decides.
use mathlib.Core.Bool.{not, ◌&&◌}
use simple_logger.Base.{◌≡◌, refl, ap, subst, ◌∙◌, Bytes, if◌then◌else◌, arith}
use simple_logger.Base.Dict.{lookup}
use simple_logger.Base.Int.{ℤ, leb_ℤ, eqb_ℤ}
use simple_logger.Level.{Registry, k_off}
use simple_logger.Config.{Settings}
use simple_logger.Logger.{Module, Logger}
use simple_logger.Logger.Reload.{compute_module, or_level, stdout_selects, resolve_module}
use simple_logger.Logger.Reload.Thresholds.{IsCurrent, resolve_module-IsCurrent}
use simple_logger.Logger.Admit.{file_admits, stdout_admits}
use simple_logger.Logger.State.{Layers, layers_of, IsConfigured, IsWellFormed, configuration}
use simple_logger.Logger.Policy.{
  Policy, policy_of, output_level, base_level, to_file, to_stdout, settings_of,
}

-- What the thresholds are computed from.
abbrev pub file_level_by : Settings → ℤ → ℤ
file_level_by s base = output_level s.file_enabled s.file_level base

abbrev pub stdout_level_by : Settings → ℤ → Bytes → ℤ
stdout_level_by s base key =
    output_level (s.stdout_enabled && stdout_selects s.stdout_modules key) s.stdout_level base

-- A module's thresholds under settings, for the module's base level.
abbrev pub AreLevels : Bytes → Settings → ℤ → Module → Type 0
AreLevels key s base ms =
    (ms.file_level ≡ file_level_by s base)
    × (ms.stdout_level ≡ stdout_level_by s base key)
    × (ms.stdout_only ≡ s.stdout_only)

compute_module-AreLevels :
    (s : Settings) (ms : Module)
    → AreLevels ms.name s
        (or_level (lookup ms.name s.module_level) s.global_level)
        (compute_module s ms)
unfolding compute_module
compute_module-AreLevels s ms = (ground arith, ground arith, refl)

pub current-AreLevels :
    (s : Settings) (key : Bytes) (ms : Module)
    → IsCurrent s (key, ms)
    → AreLevels key s (or_level (lookup key s.module_level) s.global_level) ms
current-AreLevels s key ms (named, computed) =
    subst (λ k. AreLevels k s (or_level (lookup k s.module_level) s.global_level) ms) named
      (subst (AreLevels ms.name s (or_level (lookup ms.name s.module_level) s.global_level))
        computed (compute_module-AreLevels s ms))

-- In a well-formed logger, a module of its settings has the levels that the policy gives it.
policy-AreLevels :
    (r : Registry) (lg : Logger) (key : Bytes) (ms : Module)
    → IsConfigured r (configuration lg)
    → IsCurrent lg.settings (key, ms)
    → let p = policy_of r (layers_of lg) in AreLevels key (settings_of p) (base_level p key) ms
policy-AreLevels r lg key ms c current =
    let p = policy_of r (layers_of lg) in
    let own = lookup key lg.settings.module_level in
    let by_plain : AreLevels key (settings_of p) (or_level own (settings_of p).global_level) ms =
      subst (λ s. AreLevels key s (or_level own s.global_level) ms) c.resolved.plain
        (current-AreLevels lg.settings key ms current) in
    subst (λ o. AreLevels key (settings_of p) (or_level o (settings_of p).global_level) ms)
      (c.resolved.by_module key) by_plain

-- The outputs that admit a record of the level `v`.
levels-admit :
    (p : Policy) (key : Bytes) (v : ℤ) (ms : Module)
    → AreLevels key (settings_of p) (base_level p key) ms
    → (file_admits ms v ≡ to_file p key v) × (stdout_admits ms v ≡ to_stdout p key v)
levels-admit p key v ms (file, stdout, only) = (
  ap (leb_ℤ v) file,
  λ i. not (eqb_ℤ (stdout i) k_off) && (if only i then eqb_ℤ v (stdout i) else leb_ℤ v (stdout i)),
)

-- The logger is off exactly when its policy says so; and the module that `resolve_module` gives a name
-- admits a record to each output exactly when the policy sends it there.
abbrev pub Obeys : Logger → Policy → Type 0
Obeys lg p =
    (lg.disabled ≡ (settings_of p).disabled)
    × ((key : Bytes) (v : ℤ)
        → let ms = (resolve_module key lg).0 in
          (file_admits ms v ≡ to_file p key v) × (stdout_admits ms v ≡ to_stdout p key v))

pub well_formed-Obeys :
    (r : Registry) (l : Layers) (lg : Logger) → IsWellFormed r l lg → Obeys lg (policy_of r l)
well_formed-Obeys r l lg (c, d, same) =
    subst (λ k. Obeys lg (policy_of r k)) same
      (
        c.obeyed.0 ∙ ap (λ (s : Settings). s.disabled) c.resolved.plain,
        λ key v.
            let ms = (resolve_module key lg).0 in
            let current = (resolve_module-IsCurrent key lg c.current).0 in
            levels-admit (policy_of r (layers_of lg)) key v ms
              (policy-AreLevels r lg key ms c current),
      )
