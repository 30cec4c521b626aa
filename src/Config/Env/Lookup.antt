-- ===== src/Config/Env/Lookup.antt =====
-- What each key reads as after the environment.
use simple_logger.Base.{
  ◌≡◌, refl, ap, ◌∙◌, Option, none, some, false, List, [], ◌∷◌, ◌++◌, Bytes, codes, beq, beq_iff,
  arith, if◌then◌else◌,
}
use simple_logger.Base.Dict.{lookup, lookup-insert}
use simple_logger.Base.{All, Bool-cases, inl, inr}
use simple_logger.Config.{Kv, module_prefix, after_prefix}
use simple_logger.Config.File.{set_text}
use simple_logger.Config.Layers.{or_else}
use simple_logger.Config.Env.{read_verbosity, maps, assign_if, read_no_color, read_maps, read_env}
use simple_logger.Config.Env.Tokens.{
  first_plain, last_level, tokens_of, IsOther, or_else-none, read_verbosity_other,
  read_verbosity-global, read_verbosity-module,
}

-- The variable of the table's row for `j`; no key has two rows.
abbrev pub variable : Bytes → List (Bytes × Bytes) → Option Bytes
variable j [] = none
variable j ((env, key) ∷ ms) = if beq key j then some env else variable j ms

abbrev pub of_variable : (Bytes → Option Bytes) → Option Bytes → Option Bytes
of_variable get none = none
of_variable get (some env) = get env

-- No key stands twice.
abbrev IsTable : List (Bytes × Bytes) → Type 0
IsTable [] = Unit
IsTable ((env, key) ∷ ms) = (variable key ms ≡ none) × IsTable ms

lookup-assign_if :
    (j key : Bytes) (o : Option Bytes) (kv : Kv)
    → lookup j (assign_if key o kv) ≡ or_else (if beq key j then o else none) (lookup j kv)
lookup-assign_if j key none kv = ground arith
lookup-assign_if j key (some v) kv = ground (arith, lookup-insert key j v kv)

lookup-read_maps :
    (get : Bytes → Option Bytes) (j : Bytes) (ms : List (Bytes × Bytes)) (kv : Kv)
    → IsTable ms
    → lookup j (read_maps get ms kv) ≡ or_else (of_variable get (variable j ms)) (lookup j kv)
unfolding read_maps
lookup-read_maps get j [] kv h = refl
lookup-read_maps get j ((env, key) ∷ ms) kv h = ground (
  arith,
  lookup-read_maps get j ms (assign_if key (get env) kv) h.1,
  lookup-assign_if j key (get env) kv,
  beq_iff key j,
)

maps-IsTable : IsTable maps
unfolding beq
maps-IsTable = (
  refl,
  (
    refl,
    (
      refl,
      (
        refl,
        (
          refl,
          (
            refl,
            (refl, (refl, (refl, (refl, (refl, (refl, (refl, (refl, (refl, (refl, tt)))))))))),
          ),
        ),
      ),
    ),
  ),
)

rows_are-IsOther : All (λ (row : Bytes × Bytes). IsOther row.1) maps
unfolding beq after_prefix
rows_are-IsOther =
    let o : (false ≡ false) × (◌≡◌ {A = Option Bytes} none none) = (refl, refl) in
    (o, (o, (o, (o, (o, (o, (o, (o, (o, (o, (o, (o, (o, (o, (o, (o, tt))))))))))))))))

variable-IsOther :
    (j env : Bytes) (ms : List (Bytes × Bytes))
    → All (λ (row : Bytes × Bytes). IsOther row.1) ms
    → variable j ms ≡ some env
    → IsOther j
variable-IsOther j env [] h e = cc
variable-IsOther j env ((v, key) ∷ ms) h e = elim (Bool-cases (beq key j)) [
  | inl same ↦ rw (← (beq_iff key j).0 same) h.0
  | inr other ↦ variable-IsOther j env ms h.1 (ground arith)
]

-- The text that a set NO_COLOR gives.
abbrev pub no_color : Bytes → Option Bytes → Option Bytes
no_color j none = none
no_color j (some v) = if beq (codes "color") j then some (codes "never") else none

no_color_other :
    (j : Bytes) (o : Option Bytes) → beq (codes "color") j ≡ false → no_color j o ≡ none
no_color_other j none h = refl
no_color_other j (some v) h = rw h refl

read_no_color-lookup :
    (j : Bytes) (o : Option Bytes) (kv : Kv)
    → lookup j (read_no_color o kv) ≡ or_else (no_color j o) (lookup j kv)
read_no_color-lookup j none kv = refl
read_no_color-lookup j (some v) kv =
    ground (arith, lookup-insert (codes "color") j (codes "never") kv)

module _ (getenv : Bytes → Option Bytes) where
  abbrev get : Bytes → Option Bytes
  get name = set_text (getenv name)

  read_env-rows :
      (j : Bytes)
      → lookup j (read_env getenv)
        ≡ or_else (of_variable get (variable j maps)) (
            or_else
              (no_color j (get (codes "NO_COLOR")))
              (lookup j (read_verbosity (get (codes "SLOG_VERBOSITY")))))
  unfolding read_env
  read_env-rows j =
      let v = read_verbosity (get (codes "SLOG_VERBOSITY")) in
      lookup-read_maps get j maps (read_no_color (get (codes "NO_COLOR")) v) maps-IsTable
      ∙ ap (or_else (of_variable get (variable j maps)))
          (read_no_color-lookup j (get (codes "NO_COLOR")) v)

  global_row : no_color (codes "verbosity") (get (codes "NO_COLOR")) ≡ none
  unfolding beq
  global_row = no_color_other (codes "verbosity") (get (codes "NO_COLOR")) refl

  module_row : (m : Bytes) → no_color (module_prefix ++ m) (get (codes "NO_COLOR")) ≡ none
  unfolding beq
  module_row m = no_color_other (module_prefix ++ m) (get (codes "NO_COLOR")) refl

  no_global_row : variable (codes "verbosity") maps ≡ none
  unfolding beq
  no_global_row = refl

  no_module_row : (m : Bytes) → variable (module_prefix ++ m) maps ≡ none
  unfolding beq
  no_module_row m = refl

-- The map of the environment, key by key: "verbosity" is the first token of SLOG_VERBOSITY without
-- '='; a module's key is the last token that gives that module a level; and the key of a row of the
-- table is the row's variable, or for "color" else "never" if NO_COLOR is set. A variable that is
-- empty counts as not set.
pub read_env-lookup :
    (getenv : Bytes → Option Bytes)
    → let get : Bytes → Option Bytes = λ name. set_text (getenv name) in
      (lookup (codes "verbosity") (read_env getenv)
        ≡ first_plain (tokens_of (get (codes "SLOG_VERBOSITY"))))
      × ((m : Bytes)
          → lookup (module_prefix ++ m) (read_env getenv)
            ≡ last_level m (tokens_of (get (codes "SLOG_VERBOSITY"))))
      × ((j env : Bytes)
          → variable j maps ≡ some env
          → lookup j (read_env getenv) ≡ or_else (get env) (no_color j (get (codes "NO_COLOR"))))
read_env-lookup getenv =
    let get : Bytes → Option Bytes = λ name. set_text (getenv name) in
    let v = get (codes "SLOG_VERBOSITY") in
    (
      read_env-rows getenv (codes "verbosity")
          ∙ rw (no_global_row getenv, global_row getenv) (read_verbosity-global v),
      λ m.
          read_env-rows getenv (module_prefix ++ m)
          ∙ rw (no_module_row getenv m, module_row getenv m) (read_verbosity-module m v),
      λ j env e.
          read_env-rows getenv j
          ∙ rw (e, read_verbosity_other j v (variable-IsOther j env maps rows_are-IsOther e))
              (ap (or_else (get env)) (or_else-none (no_color j (get (codes "NO_COLOR"))))),
    )
