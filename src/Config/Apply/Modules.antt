-- ===== src/Config/Apply/Modules.antt =====
-- The levels of the modules, under the keys "module.NAME" of `apply_kv` of src/config.cpp.
use simple_logger.Base.{
  ◌≡◌, ◌≢◌, refl, sym, ap, ◌∙◌, Bool, true, false, Option, none, some, [], ◌∷◌, ◌++◌, arith, Bytes,
  beq, beq_iff, if◌then◌else◌, Bool-cases, inl, inr, Option-cases,
}
use simple_logger.Base.Dict.{lookup, lookup-insert, lookup-erase, lookup-Above, IsSorted}
use simple_logger.Base.Int.{ℤ, eqb_ℤ}
use simple_logger.Level.{Registry, parse_level, k_inherit}
use simple_logger.Errors.{ErrorState}
use simple_logger.Config.{
  Kv, Settings, Key, key_of, after_prefix, module_prefix, apply_key, apply_module, apply_kv,
}
use simple_logger.Config.Apply.Resolve.{or_set}
use simple_logger.Config.Keys.{tag}

-- The override that a text gives a module: its level, none for "inherit", and the old one for a text
-- that is not a level.
abbrev pub override : Option ℤ → Option ℤ → Option ℤ
override none old = old
override (some v) old = if eqb_ℤ v k_inherit then none else some v

abbrev pub module_of : Registry → Bytes → Option ℤ → Option ℤ
module_of r val old = override (parse_level r val) old

after_prefix-append : (p m : Bytes) → after_prefix p (p ++ m) ≡ some m
unfolding after_prefix
after_prefix-append [] m = refl
after_prefix-append (c ∷ p) m = ground (arith, after_prefix-append p m)

after_prefix-some : (p s m : Bytes) → after_prefix p s ≡ some m → s ≡ p ++ m
unfolding after_prefix
after_prefix-some [] s m e = cc
after_prefix-some (c ∷ p) [] m e = cc
after_prefix-some (c ∷ p) (d ∷ s) m e = ground (arith, after_prefix-some p s m)

key_of-scalar : (key : Bytes) → after_prefix module_prefix key ≡ none → tag (key_of key) ≢ 0
unfolding key_of
key_of-scalar key e = rw (e, key_of) (ground arith)

lookup-apply_module :
    (j m what : Bytes) (o : Option ℤ) (s : Settings) (e : ErrorState)
    → lookup j (apply_module m what o s e).0.module_level
      ≡ (if beq m j then override o (lookup j s.module_level) else lookup j s.module_level)
unfolding apply_module
lookup-apply_module j m what none s e = ground arith
lookup-apply_module j m what (some v) s e =
    ground (arith, lookup-insert m j v s.module_level, lookup-erase m j s.module_level)

module _ (r : Registry) where
  scalar_keeps :
      (k : Key) (key val : Bytes) (s : Settings) (e : ErrorState)
      → tag k ≢ 0
      → (apply_key r k key val s e).0.module_level ≡ s.module_level
  unfolding apply_key
  scalar_keeps (Key.module_level m) key val s e h = absurd (h refl)
  scalar_keeps _ key val s e h = refl

  scalar_step :
      (j key val : Bytes) (s : Settings) (e : ErrorState)
      → after_prefix module_prefix key ≡ none
      → lookup j (apply_key r (key_of key) key val s e).0.module_level ≡ (
          if beq key (module_prefix ++ j)
          then module_of r val (lookup j s.module_level)
          else lookup j s.module_level)
  scalar_step j key val s e h = elim (Bool-cases (beq key (module_prefix ++ j))) [
    | inl same ↦
        let found : after_prefix module_prefix key ≡ some j =
          ap (after_prefix module_prefix) ((beq_iff key (module_prefix ++ j)).0 same)
          ∙ after_prefix-append module_prefix j in
        absurd (cc (found, h))
    | inr other ↦
        rw other (ap (lookup j) (scalar_keeps (key_of key) key val s e (key_of-scalar key h)))
  ]

  named_step :
      (j m val : Bytes) (s : Settings) (e : ErrorState)
      → lookup j
          (apply_key r (key_of (module_prefix ++ m)) (module_prefix ++ m) val s e).0.module_level
        ≡ (if beq (module_prefix ++ m) (module_prefix ++ j)
            then module_of r val (lookup j s.module_level)
            else lookup j s.module_level)
  unfolding key_of beq apply_key
  named_step j m val s e =
      lookup-apply_module j m ((module_prefix ++ m) ++ b'=' ∷ val) (parse_level r val) s e

  module_step :
      (j key val : Bytes) (s : Settings) (e : ErrorState)
      → lookup j (apply_key r (key_of key) key val s e).0.module_level ≡ (
          if beq key (module_prefix ++ j)
          then module_of r val (lookup j s.module_level)
          else lookup j s.module_level)
  module_step j key val s e = elim (Option-cases (after_prefix module_prefix key)) [
    | inl scalar ↦ scalar_step j key val s e scalar
    | inr (m, named) ↦ rw (after_prefix-some module_prefix key m named) (named_step j m val s e)
  ]

  or_set-step :
      (same : Bool) (val : Bytes) (later : Option Bytes) (x : Option ℤ)
      → (same ≡ true → later ≡ none)
      → or_set (module_of r) later (if same then module_of r val x else x)
        ≡ or_set (module_of r) (if same then some val else later) x
  or_set-step true val later x once = rw (once refl) refl
  or_set-step false val later x once = refl

  -- For a sorted map of keys and texts, a module's level is decided by the text of "module.NAME"
  -- alone: a level is its override, "inherit" is none, and a bad text or none at all leaves the old one.
  pub lookup-apply_kv :
      (j : Bytes) (kv : Kv) (s : Settings) (e : ErrorState)
      → IsSorted kv
      → lookup j (apply_kv r kv s e).0.module_level
        ≡ or_set (module_of r) (lookup (module_prefix ++ j) kv) (lookup j s.module_level)
  unfolding apply_kv lookup
  lookup-apply_kv j [] s e sorted = refl
  lookup-apply_kv j ((key, val) ∷ kv) s e sorted =
      let now = apply_key r (key_of key) key val s e in
      lookup-apply_kv j kv now.0 now.1 sorted.1
      ∙ ap (or_set (module_of r) (lookup (module_prefix ++ j) kv)) (module_step j key val s e)
      ∙ or_set-step (beq key (module_prefix ++ j)) val (lookup (module_prefix ++ j) kv)
          (lookup j s.module_level)
          (λ same.
            ap (λ k. lookup k kv) (sym ((beq_iff key (module_prefix ++ j)).0 same))
            ∙ lookup-Above key kv sorted.0)
