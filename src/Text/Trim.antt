-- ===== src/Text/Trim.antt =====
-- `trim` against a plain definition: drop the set's bytes in front, then those at the back.
use mathlib.Core.Option
use simple_logger.Base.{
  ℕ, suc, ◌+◌, ◌-◌, ◌≡◌, ◌≢◌, refl, ap, Bool, true, false, Option, none, some, [], ◌∷◌, arith,
  Bytes, if◌then◌else◌, take, drop, All, Bool-cases, inl, inr,
}
use simple_logger.Text.{find_first_not_of, find_last_not_of, substr, between, trim?}

module _ (p : ℕ → Bool) where
  -- Without the bytes of the set in front.
  unfoldable pub drop_front : Bytes → Bytes
  drop_front [] = []
  drop_front (c ∷ s) = if p c then drop_front s else c ∷ s

  abbrev add_front : ℕ → Bytes → Bytes
  add_front c [] = if p c then [] else c ∷ []
  add_front c (d ∷ t) = c ∷ d ∷ t

  abbrev last_behind : ℕ → Option ℕ → Option ℕ
  last_behind c none = if p c then none else some 0
  last_behind c (some i) = some (suc i)

  abbrev pub front : Bytes → Option Bytes
  front [] = none
  front (c ∷ s) = some (c ∷ s)

  -- Without the bytes of the set at the back.
  unfoldable pub drop_back : Bytes → Bytes
  drop_back [] = []
  drop_back (c ∷ s) = add_front c (drop_back s)

  abbrev back_of_last : Bytes → Option ℕ → Bytes
  back_of_last s none = []
  back_of_last s (some b) = take (suc b) s

  drop_back-last : (s : Bytes) → drop_back s ≡ back_of_last s (find_last_not_of p s)
  unfolding drop_back find_last_not_of
  drop_back-last [] = refl
  drop_back-last (c ∷ []) = ground arith
  drop_back-last (c ∷ d ∷ s) = go (find_last_not_of p (d ∷ s)) (drop_back-last (d ∷ s))
    where
      go :
          (o : Option ℕ)
          → drop_back (d ∷ s) ≡ back_of_last (d ∷ s) o
          → add_front c (drop_back (d ∷ s)) ≡ back_of_last (c ∷ d ∷ s) (last_behind c o)
      go none h = rw h (ground arith)
      go (some i) h = rw h refl

  drop_back_full : (s : Bytes) → All (λ c. p c ≡ false) s → drop_back s ≡ s
  unfolding drop_back
  drop_back_full [] h = refl
  drop_back_full (c ∷ s) h = ground (arith, drop_back_full s h.1)

  drop_back-cons : (c : ℕ) (s : Bytes) → p c ≡ false → (t : Bytes) × (drop_back (c ∷ s) ≡ c ∷ t)
  unfolding drop_back
  drop_back-cons c s h = go (drop_back s)
    where
      go : (d : Bytes) → (t : Bytes) × (add_front c d ≡ c ∷ t)
      go [] = ([], rw h refl)
      go (d ∷ t) = (d ∷ t, refl)

  substr-suc :
      (c : ℕ) (s : Bytes) (a b : ℕ)
      → substr (c ∷ s) (suc a) (suc b - suc a + 1) ≡ substr s a (b - a + 1)
  substr-suc c s a b = ap (λ n. take n (drop a s)) (omega arith)

  trim?-skip : (c : ℕ) (s : Bytes) → p c ≡ true → trim? p (c ∷ s) ≡ trim? p s
  unfolding trim? find_first_not_of find_last_not_of
  trim?-skip c s h = go (find_first_not_of p s) (find_last_not_of p s)
    where
      go :
          (o l : Option ℕ)
          → between (c ∷ s) (if p c then Option.map suc o else some 0) (last_behind c l)
            ≡ between s o l
      go none l = rw h refl
      go (some a) none = rw h refl
      go (some a) (some b) = rw h (ap some (substr-suc c s a b))

  two_more : (b : ℕ) → suc b - 0 + 1 ≡ suc (suc b)
  two_more b = omega arith

  trim?-keep : (c : ℕ) (s : Bytes) → p c ≡ false → trim? p (c ∷ s) ≡ front (drop_back (c ∷ s))
  unfolding trim? find_first_not_of find_last_not_of
  trim?-keep c s h = rw (drop_back-last (c ∷ s)) (go (find_last_not_of p s))
    where
      go :
          (l : Option ℕ)
          → between
              (c ∷ s)
              (if p c then Option.map suc (find_first_not_of p s) else some 0)
              (last_behind c l)
            ≡ front (back_of_last (c ∷ s) (last_behind c l))
      go none = rw h refl
      go (some b) = rw h (ap (λ n. some (take n (c ∷ s))) (two_more b))

  -- `trim?` drops exactly the bytes of the set at both ends; it finds none if all are in the set.
  pub trim?-eq-front : (s : Bytes) → trim? p s ≡ front (drop_back (drop_front s))
  unfolding drop_front
  trim?-eq-front [] = unfold trim? drop_back in refl
  trim?-eq-front (c ∷ s) = elim (Bool-cases (p c)) [
    | inl e ↦ rw (e, trim?-skip c s e) (trim?-eq-front s)
    | inr e ↦ rw (e, trim?-keep c s e)
  ]

  -- A text with no byte of the set is left alone.
  pub trim?_full : (s : Bytes) → s ≢ [] → All (λ c. p c ≡ false) s → trim? p s ≡ some s
  trim?_full [] h k = absurd (h refl)
  trim?_full (c ∷ s) h k = rw (trim?-keep c s k.0, drop_back_full (c ∷ s) k) refl

  drop_back_idem : (s : Bytes) → drop_back (drop_back s) ≡ drop_back s
  unfolding drop_back
  drop_back_idem [] = refl
  drop_back_idem (c ∷ s) = ground (arith, drop_back_idem s)

  starts_kept : (s : Bytes) → drop_front (drop_back (drop_front s)) ≡ drop_back (drop_front s)
  unfolding drop_front
  starts_kept [] = unfold drop_back in refl
  starts_kept (c ∷ s) = ground (arith, starts_kept s, drop_back-cons c s)

  -- Trimming twice is trimming once.
  pub trim?_idem : (s : Bytes) {t : Bytes} → trim? p s ≡ some t → trim? p t ≡ some t
  trim?_idem s {t} h =
      ground
        (arith, trim?-eq-front s, trim?-eq-front t, starts_kept s, drop_back_idem (drop_front s))
