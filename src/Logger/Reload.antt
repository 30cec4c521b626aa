-- ===== src/Logger/Reload.antt =====
-- `reload_locked`, `compute_module` and `resolve_module` of src/logger.cpp.
pub mod Thresholds
pub mod Cache
use mathlib.Core.Bool.{not, ◌||◌, ◌&&◌}
use simple_logger.Base.{
  ℕ, Bool, true, false, Option, none, some, List, [], ◌∷◌, ◌++◌, Bytes, codes, beq, if◌then◌else◌,
}
use simple_logger.Base.Dict
use simple_logger.Base.Dict.{Dict}
use simple_logger.Base.Int.{ℤ, eqb_ℤ, ltb_ℤ}
use simple_logger.Text.Decimal.{to_string}
use simple_logger.Level.{k_inherit, k_off}
use simple_logger.Errors.{ErrorState}
use simple_logger.Format.{FormatSpec, parse_format}
use simple_logger.Config.{Kv, Settings, default_settings, apply_kv}
use simple_logger.Config.Layers.{merge}
use simple_logger.Logger.{Module, Logger, new_module}

-- `isatty(STDOUT_FILENO)` is `tty`.
unfoldable pub resolve_color : Bool → Settings → Bool
resolve_color tty settings =
    if beq settings.color (codes "always")
    then true
    else if beq settings.color (codes "never")
    then false
    else tty

-- The loop of `stdout_selects`.
unfoldable pub selected : Bytes → List Bytes → Bool
selected name [] = false
selected name (m ∷ ms) = beq m name || selected name ms

abbrev pub stdout_selects : List Bytes → Bytes → Bool
stdout_selects [] name = true
stdout_selects (m ∷ ms) name = selected name (m ∷ ms)

abbrev pub or_level : Option ℤ → ℤ → ℤ
or_level none base = base
or_level (some level) base = level

unfoldable pub compute_module : Settings → Module → Module
compute_module settings ms =
    let base = or_level (Dict.lookup ms.name settings.module_level) settings.global_level in
    let file_lvl =
      if settings.file_enabled
      then (if eqb_ℤ settings.file_level k_inherit then base else settings.file_level)
      else k_off in
    let stdout_lvl =
      if settings.stdout_enabled && stdout_selects settings.stdout_modules ms.name
      then (if eqb_ℤ settings.stdout_level k_inherit then base else settings.stdout_level)
      else k_off in
    record ms {
      file_level = file_lvl;
      stdout_level = stdout_lvl;
      stdout_only = settings.stdout_only;
      collect_level = if ltb_ℤ stdout_lvl file_lvl then file_lvl else stdout_lvl;
    }

unfoldable pub compute_modules : Settings → Dict Module → Dict Module
compute_modules settings [] = []
compute_modules settings ((k, ms) ∷ modules) =
    (k, compute_module settings ms) ∷ compute_modules settings modules

abbrev pub digit_of : Bool → ℕ
digit_of true = b'1'
digit_of false = b'0'

-- The key of the spec cache.
abbrev pub spec_key : Bytes → Bool → Bool → ℤ → Bytes
spec_key format time elapsed start =
    format ++ 1 ∷ digit_of time ∷ digit_of elapsed ∷ 1 ∷ to_string start

-- The published spec: the cached one, or a new one that is kept and cached.
abbrev pub raw_of : FormatSpec → Option FormatSpec → FormatSpec
raw_of spec none = spec
raw_of spec (some raw) = raw

abbrev pub keep_spec : FormatSpec → Option FormatSpec → List FormatSpec → List FormatSpec
keep_spec spec none specs = specs ++ spec ∷ []
keep_spec spec (some raw) specs = specs

abbrev pub cache_spec : Bytes → FormatSpec → Option FormatSpec → Dict FormatSpec → Dict FormatSpec
cache_spec key spec none cache = Dict.insert key spec cache
cache_spec key spec (some raw) cache = cache

abbrev pub publish : Bytes → FormatSpec → Option FormatSpec → Logger → Logger
publish key spec cached lg = record lg {
  fmt_ptr = some (raw_of spec cached);
  specs = keep_spec spec cached lg.specs;
  spec_cache = cache_spec key spec cached lg.spec_cache;
}

unfoldable pub publish_spec : Logger → Logger
publish_spec lg =
    let s = lg.settings in
    let key = spec_key s.format s.enable_time s.enable_elapsed lg.start_epoch_ns in
    publish key (parse_format s.format s.enable_time s.enable_elapsed lg.start_epoch_ns)
      (Dict.lookup key lg.spec_cache) lg

-- What `reload_locked` does with the new settings.
unfoldable pub install : Bool → Settings → Logger → Logger
install tty s lg =
    let lg' = publish_spec (record lg {
      settings = s;
      disabled = s.disabled;
      flush_level = s.flush_level;
      stdout_color = resolve_color tty s;
    }) in
    record lg' { modules = compute_modules s lg'.modules }

unfoldable pub reload_locked : Bool → ErrorState → Logger → ErrorState × Logger
reload_locked tty e lg =
    let (s, e') = apply_kv lg.levels (merge lg.file_kv lg.env_kv lg.api_kv) default_settings e in
    (e', install tty s lg)

-- The name that is shown: "default" for the module without a name.
abbrev pub display_of : Bytes → Bytes
display_of [] = codes "default"
display_of (c ∷ key) = c ∷ key

abbrev pub add_module : Bytes → Option Module → Logger → Module × Logger
add_module key (some ms) lg = (ms, lg)
add_module key none lg =
    let ms = compute_module lg.settings (new_module key (display_of key)) in
    (ms, record lg { modules = Dict.insert key ms lg.modules })

-- `resolve_module`; a null module is the empty text.
unfoldable pub resolve_module : Bytes → Logger → Module × Logger
resolve_module key lg = add_module key (Dict.lookup key lg.modules) lg
