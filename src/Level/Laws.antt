-- ===== src/Level/Laws.antt =====
-- Registered names: lookups, and what `add_level` changes.
use simple_logger.Base.{
  Bool-cases, inl, inr, ◌≡◌, ◌≢◌, refl, none, some, List, [], ◌∷◌, ◌++◌, arith, Bytes, codes, beq,
  beq_iff, if◌then◌else◌, All, All-append,
}
use simple_logger.Base.Int.{ℤ, eqb_ℤ, eqb_ℤ_iff}
use simple_logger.Text.{to_lower, trim?, is_blank}
use simple_logger.Level.{
  Registry, add_level, find_name, find_value, parse_number, parse_word, parse_level,
}

pub parse_level-trim? :
    (r : Registry) (text t : Bytes)
    → trim? is_blank (to_lower text) ≡ some t
    → parse_level r text ≡ parse_word r t
unfolding parse_level
parse_level-trim? r text t h = rw h

-- A name that reads as itself: trimmed, not one of the two words for "no level", not a number.
pub record IsName (name : Bytes) : Type 0 where
  pub trimmed : trim? is_blank (to_lower name) ≡ some (to_lower name)
  pub not_inherit : to_lower name ≢ codes "inherit"
  pub not_default : to_lower name ≢ codes "default"
  pub not_number : parse_number (to_lower name) ≡ none

-- No two names are alike but for case.
abbrev pub IsDistinct : List (Bytes × ℤ) → Type 0
IsDistinct [] = Unit
IsDistinct ((name, value) ∷ es) = (find_name (to_lower name) es ≡ none) × IsDistinct es

pub record IsWellNamed (r : Registry) : Type 0 where
  pub names : All (λ (e : Bytes × ℤ). IsName e.0) r.entries
  pub distinct : IsDistinct r.entries

-- A registered value's name is found, with that value.
pub find_name-find_value :
    (v : ℤ) (es : List (Bytes × ℤ)) (n : Bytes)
    → IsDistinct es
    → find_value v es ≡ some n
    → find_name (to_lower n) es ≡ some v
unfolding find_name find_value
find_name-find_value v [] n d h = cc
find_name-find_value v ((name, value) ∷ es) n d h = ground (
  arith,
  find_name-find_value v es n d.1,
  eqb_ℤ_iff value v,
  beq_iff (to_lower name) (to_lower n),
)

pub find_value-IsName :
    (v : ℤ) (es : List (Bytes × ℤ)) (n : Bytes)
    → All (λ (e : Bytes × ℤ). IsName e.0) es
    → find_value v es ≡ some n
    → IsName n
unfolding find_value
find_value-IsName v [] n d h = cc
find_value-IsName v ((name, value) ∷ es) n d h = elim (Bool-cases (eqb_ℤ value v)) [
  | inl e ↦ let same : name ≡ n = ground arith in rw (← same) d.0
  | inr e ↦ find_value-IsName v es n d.1 (rw e at h)
]

pub find_name-append :
    (t : Bytes) (es : List (Bytes × ℤ)) (name : Bytes) (value : ℤ)
    → find_name t (es ++ (name, value) ∷ []) ≡ elim (find_name t es) [
      | some v ↦ some v
      | none ↦ if beq (to_lower name) t then some value else none
    ]
unfolding find_name
find_name-append t [] name value = refl
find_name-append t ((n, v) ∷ es) name value = ground (arith, find_name-append t es name value)

IsDistinct-append :
    (es : List (Bytes × ℤ)) (name : Bytes) (value : ℤ)
    → IsDistinct es
    → find_name (to_lower name) es ≡ none
    → IsDistinct (es ++ (name, value) ∷ [])
unfolding find_name
IsDistinct-append [] name value d h = (refl, tt)
IsDistinct-append ((n, v) ∷ es) name value d h = ground (
  arith,
  IsDistinct-append es name value d.1,
  find_name-append (to_lower n) es name value,
  beq_iff (to_lower n) (to_lower name),
  beq_iff (to_lower name) (to_lower n),
)

-- A new name keeps the registry well named if it reads as itself and no other name is like it.
pub add_level-IsWellNamed :
    (r : Registry) (name : Bytes) (value : ℤ)
    → IsWellNamed r
    → IsName name
    → find_name (to_lower name) r.entries ≡ none
    → IsWellNamed (add_level r name value).0
unfolding add_level
add_level-IsWellNamed r name value w n fresh = record {
  names = All-append (λ (e : Bytes × ℤ). IsName e.0) r.entries _ w.names (n, tt);
  distinct = IsDistinct-append r.entries name value w.distinct fresh;
}

-- After `add_level`, the new name in any case and spacing reads as the new value, and a text that
-- is not the new name reads as before.
pub parse_level-add_level :
    (r : Registry) (name : Bytes) (value : ℤ) (text t : Bytes)
    → IsName name
    → find_name (to_lower name) r.entries ≡ none
    → trim? is_blank (to_lower text) ≡ some t
    → (t ≡ to_lower name → parse_level (add_level r name value).0 text ≡ some value)
      × (t ≢ to_lower name → parse_level (add_level r name value).0 text ≡ parse_level r text)
unfolding add_level parse_level
parse_level-add_level r name value text t n fresh trimmed = ground (
  arith,
  find_name-append t r.entries name value,
  beq_iff (to_lower name) t,
  beq_iff t (codes "inherit"),
  beq_iff t (codes "default"),
  n.not_inherit,
  n.not_default,
)
