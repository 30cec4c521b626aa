-- ===== src/Config/Env/Tokens.antt =====
-- What the tokens of SLOG_VERBOSITY give.
use simple_logger.Base.{
  ◌≡◌, refl, ap, ◌∙◌, Option, none, some, Bool, true, false, List, [], ◌∷◌, ◌++◌, Bytes, codes, beq,
  beq_iff, arith, if◌then◌else◌,
}
use simple_logger.Base.Dict.{lookup, lookup-insert}
use simple_logger.Base.{Bool-cases, inl, inr}
use simple_logger.Text.{cut_at, trim, split}
use simple_logger.Config.{Kv, module_prefix, after_prefix}
use simple_logger.Config.Layers.{or_else}
use simple_logger.Config.Env.{read_token, read_tokens, read_verbosity}

-- The first token without '='.
pub first_plain : List Bytes → Option Bytes
first_plain [] = none
first_plain (tok ∷ toks) = elim (cut_at b'=' tok) [ none ↦ some tok | some p ↦ first_plain toks ]

-- The level of the last token `m=level`.
pub last_level : Bytes → List Bytes → Option Bytes
last_level m [] = none
last_level m (tok ∷ toks) = or_else (last_level m toks) (elim (cut_at b'=' tok) [
  | none ↦ none
  | some (l, r) ↦ if beq (trim l) m then some (trim r) else none
])

-- The text of SLOG_VERBOSITY, in tokens.
abbrev pub tokens_of : Option Bytes → List Bytes
tokens_of none = []
tokens_of (some v) = split v b','

verbosity_step :
    (toks : List Bytes) (tok : Bytes) (cut : Option (Bytes × Bytes)) (have_global : Bool) (kv : Kv)
    → (if (read_token tok cut (have_global, kv)).0
        then lookup (codes "verbosity") (read_token tok cut (have_global, kv)).1
        else or_else
            (first_plain toks)
            (lookup (codes "verbosity") (read_token tok cut (have_global, kv)).1))
      ≡ (if have_global
          then lookup (codes "verbosity") kv
          else or_else
              (elim cut [ none ↦ some tok | some p ↦ first_plain toks ])
              (lookup (codes "verbosity") kv))
unfolding beq
verbosity_step toks tok none true kv = refl
verbosity_step toks tok none false kv = lookup-insert (codes "verbosity") (codes "verbosity") tok kv
verbosity_step toks tok (some (l, r)) true kv =
    lookup-insert (module_prefix ++ trim l) (codes "verbosity") (trim r) kv
verbosity_step toks tok (some (l, r)) false kv =
    ap (or_else (first_plain toks))
      (lookup-insert (module_prefix ++ trim l) (codes "verbosity") (trim r) kv)

verbosity-read_tokens :
    (toks : List Bytes) (have_global : Bool) (kv : Kv)
    → lookup (codes "verbosity") (read_tokens toks (have_global, kv)) ≡ (
        if have_global
        then lookup (codes "verbosity") kv
        else or_else (first_plain toks) (lookup (codes "verbosity") kv))
unfolding read_tokens first_plain
verbosity-read_tokens [] true kv = refl
verbosity-read_tokens [] false kv = refl
verbosity-read_tokens (tok ∷ toks) have_global kv =
    let next = read_token tok (cut_at b'=' tok) (have_global, kv) in
    verbosity-read_tokens toks next.0 next.1
    ∙ verbosity_step toks tok (cut_at b'=' tok) have_global kv

pub or_else-none : (a : Option Bytes) → or_else a none ≡ a
or_else-none none = refl
or_else-none (some v) = refl

or_else_assoc : (a b c : Option Bytes) → or_else a (or_else b c) ≡ or_else (or_else a b) c
or_else_assoc none b c = refl
or_else_assoc (some v) b c = refl

module_step :
    (m tok : Bytes) (cut : Option (Bytes × Bytes)) (have_global : Bool) (kv : Kv)
    → lookup (module_prefix ++ m) (read_token tok cut (have_global, kv)).1
      ≡ or_else
          (elim cut [ none ↦ none | some (l, r) ↦ if beq (trim l) m then some (trim r) else none ])
          (lookup (module_prefix ++ m) kv)
unfolding beq
module_step m tok none true kv = refl
module_step m tok none false kv = lookup-insert (codes "verbosity") (module_prefix ++ m) tok kv
module_step m tok (some (l, r)) have_global kv =
    ground (arith, lookup-insert (module_prefix ++ trim l) (module_prefix ++ m) (trim r) kv)

module-read_tokens :
    (m : Bytes) (toks : List Bytes) (have_global : Bool) (kv : Kv)
    → lookup (module_prefix ++ m) (read_tokens toks (have_global, kv))
      ≡ or_else (last_level m toks) (lookup (module_prefix ++ m) kv)
unfolding read_tokens last_level
module-read_tokens m [] have_global kv = refl
module-read_tokens m (tok ∷ toks) have_global kv =
    let next = read_token tok (cut_at b'=' tok) (have_global, kv) in
    module-read_tokens m toks next.0 next.1
    ∙ ap (or_else (last_level m toks)) (module_step m tok (cut_at b'=' tok) have_global kv)
    ∙ or_else_assoc (last_level m toks) _ (lookup (module_prefix ++ m) kv)

-- A key that SLOG_VERBOSITY cannot give.
abbrev pub IsOther : Bytes → Type 0
IsOther j = (beq (codes "verbosity") j ≡ false) × (after_prefix module_prefix j ≡ none)

prefix_found : (l j : Bytes) → module_prefix ++ l ≡ j → after_prefix module_prefix j ≡ none → ⊥
unfolding after_prefix
prefix_found l j e h = let whole : some l ≡ none = ap (after_prefix module_prefix) e ∙ h in cc whole

prefix_other :
    (l j : Bytes) → after_prefix module_prefix j ≡ none → beq (module_prefix ++ l) j ≡ false
prefix_other l j h = elim (Bool-cases (beq (module_prefix ++ l) j)) [
  | inl e ↦ absurd (prefix_found l j ((beq_iff (module_prefix ++ l) j).0 e) h)
  | inr e ↦ e
]

other_step :
    (j tok : Bytes) (cut : Option (Bytes × Bytes)) (have_global : Bool) (kv : Kv)
    → IsOther j
    → lookup j (read_token tok cut (have_global, kv)).1 ≡ lookup j kv
other_step j tok none true kv h = refl
other_step j tok none false kv h = lookup-insert (codes "verbosity") j tok kv ∙ rw h.0 refl
other_step j tok (some (l, r)) have_global kv h =
    lookup-insert (module_prefix ++ trim l) j (trim r) kv ∙ rw (prefix_other (trim l) j h.1) refl

other-read_tokens :
    (j : Bytes) (toks : List Bytes) (have_global : Bool) (kv : Kv)
    → IsOther j
    → lookup j (read_tokens toks (have_global, kv)) ≡ lookup j kv
unfolding read_tokens
other-read_tokens j [] have_global kv h = refl
other-read_tokens j (tok ∷ toks) have_global kv h =
    let next = read_token tok (cut_at b'=' tok) (have_global, kv) in
    other-read_tokens j toks next.0 next.1 h ∙ other_step j tok (cut_at b'=' tok) have_global kv h

pub read_verbosity_other :
    (j : Bytes) (o : Option Bytes) → IsOther j → lookup j (read_verbosity o) ≡ none
unfolding lookup
read_verbosity_other j none h = refl
read_verbosity_other j (some v) h = other-read_tokens j (split v b',') false [] h

pub read_verbosity-global :
    (o : Option Bytes) → lookup (codes "verbosity") (read_verbosity o) ≡ first_plain (tokens_of o)
unfolding lookup first_plain
read_verbosity-global none = refl
read_verbosity-global (some v) =
    verbosity-read_tokens (split v b',') false [] ∙ or_else-none (first_plain (split v b','))

pub read_verbosity-module :
    (m : Bytes) (o : Option Bytes)
    → lookup (module_prefix ++ m) (read_verbosity o) ≡ last_level m (tokens_of o)
unfolding lookup last_level
read_verbosity-module m none = refl
read_verbosity-module m (some v) =
    module-read_tokens m (split v b',') false [] ∙ or_else-none (last_level m (split v b','))
