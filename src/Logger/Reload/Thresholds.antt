-- ===== src/Logger/Reload/Thresholds.antt =====
-- A module's thresholds: what the collect level says of the two outputs.
use mathlib.Core.Bool.{◌||◌}
use simple_logger.Base.{
  ◌≡◌, refl, subst, ◌∙◌, beq_refl, less, true, false, Option, none, some, [], ◌∷◌, Bytes, arith,
  beq, beq_iff, All, if◌then◌else◌, Bool-cases, inl, inr,
}
use simple_logger.Base.Dict
use simple_logger.Base.Dict.{Dict, lookup, lookup-insert}
use simple_logger.Base.Int.{ℤ, leb_ℤ, ltb_ℤ}
use simple_logger.Level.{k_off}
use simple_logger.Config.{Settings}
use simple_logger.Logger.{Module, Logger, new_module}
use simple_logger.Logger.Reload.{
  compute_module, compute_modules, resolve_module, add_module, display_of,
}
use simple_logger.Logger.Admit.{file_admits, stdout_admits, state_of}

-- The collect level is the higher of the two outputs' levels.
abbrev pub IsCollected : Module → Type 0
IsCollected ms =
    ms.collect_level
    ≡ (if ltb_ℤ ms.stdout_level ms.file_level then ms.file_level else ms.stdout_level)

pub compute_module-IsCollected :
    (settings : Settings) (ms : Module) → IsCollected (compute_module settings ms)
unfolding compute_module
compute_module-IsCollected settings ms = refl

pub over_both :
    (v file stdout : ℤ)
    → leb_ℤ v (if ltb_ℤ stdout file then file else stdout) ≡ (leb_ℤ v file || leb_ℤ v stdout)
over_both v file stdout = ground arith

pub collect_filters :
    (ms : Module) (v : ℤ)
    → IsCollected ms
    → leb_ℤ v ms.collect_level ≡ false
    → (file_admits ms v ≡ false) × (stdout_admits ms v ≡ false)
collect_filters ms v h low = ground (arith, over_both v ms.file_level ms.stdout_level)

pub collect_admits :
    (ms : Module) (v : ℤ)
    → IsCollected ms
    → ms.stdout_only ≡ false
    → ltb_ℤ k_off v ≡ true
    → leb_ℤ v ms.collect_level ≡ (file_admits ms v || stdout_admits ms v)
collect_admits ms v h only above = ground (arith, over_both v ms.file_level ms.stdout_level)

-- A module's state is that of its key under the settings.
abbrev pub IsCurrent : Settings → Bytes × Module → Type 0
IsCurrent settings (key, ms) = (ms.name ≡ key) × (compute_module settings ms ≡ ms)

abbrev pub AllCurrent : Settings → Dict Module → Type 0
AllCurrent settings = All (IsCurrent settings)

compute_module_idem :
    (settings : Settings) (ms : Module)
    → compute_module settings (compute_module settings ms) ≡ compute_module settings ms
unfolding compute_module
compute_module_idem settings ms = refl

compute_module-name :
    (settings : Settings) (ms : Module) → (compute_module settings ms).name ≡ ms.name
unfolding compute_module
compute_module-name settings ms = refl

-- Whatever the modules were computed from before, they are those of the new settings.
pub compute_modules-AllCurrent :
    (settings old : Settings) (modules : Dict Module)
    → AllCurrent old modules
    → AllCurrent settings (compute_modules settings modules)
unfolding compute_modules
compute_modules-AllCurrent settings old [] h = tt
compute_modules-AllCurrent settings old ((k, ms) ∷ modules) h = (
  (compute_module-name settings ms ∙ h.0.0, compute_module_idem settings ms),
  compute_modules-AllCurrent settings old modules h.1,
)

pub insert-AllCurrent :
    (settings : Settings) (key : Bytes) (ms : Module) (modules : Dict Module)
    → IsCurrent settings (key, ms)
    → AllCurrent settings modules
    → AllCurrent settings (Dict.insert key ms modules)
unfolding Dict.insert
insert-AllCurrent settings key ms [] p h = (p, tt)
insert-AllCurrent settings key ms ((k, v) ∷ modules) p h =
    let behind = insert-AllCurrent settings key ms modules p h.1 in
    elim (Bool-cases (beq k key)) [
      | inl same ↦
          let here : IsCurrent settings (k, ms) = rw ((beq_iff k key).0 same) p in
          rw same (here, h.1)
      | inr other ↦ elim (Bool-cases (less key k)) [
        | inl before ↦ rw (other, before) (p, h)
        | inr after ↦ rw (other, after) (h.0, behind)
      ]
    ]

pub lookup-IsCurrent :
    (settings : Settings) (key : Bytes) (modules : Dict Module) (ms : Module)
    → AllCurrent settings modules
    → lookup key modules ≡ some ms
    → IsCurrent settings (key, ms)
unfolding lookup
lookup-IsCurrent settings key [] ms h e = cc
lookup-IsCurrent settings key ((k, v) ∷ modules) ms h e = elim (Bool-cases (beq k key)) [
  | inl same ↦ let found : v ≡ ms = ground arith in rw (← found, ← (beq_iff k key).0 same) h.0
  | inr other ↦ lookup-IsCurrent settings key modules ms h.1 (ground arith)
]

pub current-IsCollected :
    (settings : Settings) (key : Bytes) (ms : Module)
    → IsCurrent settings (key, ms)
    → IsCollected ms
current-IsCollected settings key ms h =
    subst IsCollected h.1 (compute_module-IsCollected settings ms)

add_module-IsCurrent :
    (key : Bytes) (o : Option Module) (lg : Logger)
    → AllCurrent lg.settings lg.modules
    → lookup key lg.modules ≡ o
    → let (ms, lg') = add_module key o lg in
      IsCurrent lg.settings (key, ms) × AllCurrent lg.settings lg'.modules × (state_of key lg' ≡ ms)
add_module-IsCurrent key (some ms) lg h e =
    (lookup-IsCurrent lg.settings key lg.modules ms h e, h, rw e refl)
add_module-IsCurrent key none lg h e =
    let ms = compute_module lg.settings (new_module key (display_of key)) in
    let current : IsCurrent lg.settings (key, ms) = (
      compute_module-name lg.settings (new_module key (display_of key)),
      compute_module_idem lg.settings (new_module key (display_of key)),
    ) in
    (
      current,
      insert-AllCurrent lg.settings key ms lg.modules current h,
      rw (lookup-insert key key ms lg.modules, beq_refl key) refl,
    )

-- In a logger whose modules are those of its settings, `resolve_module` gives a module of the settings,
-- which the logger then has under that name, and the modules stay those of the settings.
pub resolve_module-IsCurrent :
    (key : Bytes) (lg : Logger)
    → AllCurrent lg.settings lg.modules
    → let (ms, lg') = resolve_module key lg in
      IsCurrent lg.settings (key, ms) × AllCurrent lg.settings lg'.modules × (state_of key lg' ≡ ms)
unfolding resolve_module
resolve_module-IsCurrent key lg h = add_module-IsCurrent key (lookup key lg.modules) lg h refl
