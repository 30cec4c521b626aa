-- ===== src/RunDir/Unique.antt =====
-- The free names that `unique_dest` looks for.
use simple_logger.Base.{
  ℕ, zero, suc, ◌+◌, ◌≤◌, ◌<◌, ◌≡◌, refl, true, false, ◌⊎◌, inl, inr, Bytes, ◌∷◌, ◌++◌, arith,
  Bool-cases, sym, ◌∙◌, ap,
}
use simple_logger.Os.{Os}
use simple_logger.RunDir.{candidate, unique_from, k_rounds, unique_dest}

module _ (os : Os) where
  -- The rounds from `i` on, so many of them, whose candidates all exist.
  abbrev AllTaken : ℕ → ℕ → Bytes → os.State → Type 0
  AllTaken rounds i base s =
      (j : ℕ) → i ≤ j → j < rounds + i → os.exists (candidate os base j) s ≡ true

  unique_from-taken :
      (rounds i : ℕ) (base : Bytes) (s : os.State)
      → os.exists (candidate os base i) s ≡ true
      → unique_from os (suc rounds) i base s ≡ unique_from os rounds (suc i) base s
  unfolding unique_from
  unique_from-taken rounds i base s e = rw (unique_from, e) refl

  unique_from-free :
      (rounds i : ℕ) (base : Bytes) (s : os.State)
      → os.exists (candidate os base i) s ≡ false
      → unique_from os (suc rounds) i base s ≡ candidate os base i
  unfolding unique_from
  unique_from-free rounds i base s e = rw (unique_from, e) refl

  AllTaken-cons :
      (rounds i : ℕ) (base : Bytes) (s : os.State)
      → os.exists (candidate os base i) s ≡ true
      → AllTaken rounds (suc i) base s
      → AllTaken (suc rounds) i base s
  AllTaken-cons rounds i base s e rest j low high =
      let cases : (i ≡ j) ⊎ (suc i ≤ j) = omega arith in
      elim cases [
        | inl same ↦ ap (λ k. os.exists (candidate os base k) s) (sym same) ∙ e
        | inr above ↦ rest j above (omega arith)
      ]

  unique_from_lem :
      (rounds i : ℕ) (base : Bytes) (s : os.State)
      → (os.exists (unique_from os rounds i base s) s ≡ false) ⊎ AllTaken rounds i base s
  unique_from_lem zero i base s = inr (λ j low high. absurd (omega arith))
  unique_from_lem (suc rounds) i base s = elim (Bool-cases (os.exists (candidate os base i) s)) [
    | inl e ↦ elim (unique_from_lem rounds (suc i) base s) [
      | inl free ↦ inl (ap (λ p. os.exists p s) (unique_from-taken rounds i base s e) ∙ free)
      | inr taken ↦ inr (AllTaken-cons rounds i base s e taken)
    ]
    | inr e ↦ inl (ap (λ p. os.exists p s) (unique_from-free rounds i base s e) ∙ e)
  ]

  -- The name that `unique_dest` gives to a file does not exist yet, unless the plain name and every
  -- candidate from "-1" to the last round's exist.
  pub unique_dest-free_name :
      (dir name : Bytes) (s : os.State)
      → (os.exists (unique_dest os dir name s) s ≡ false)
        ⊎ ((os.exists (dir ++ b'/' ∷ name) s ≡ true)
            × ((j : ℕ)
                → 1 ≤ j
                → j ≤ k_rounds os
                → os.exists (candidate os (dir ++ b'/' ∷ name) j) s ≡ true))
  unfolding unique_dest
  unique_dest-free_name dir name s = elim (Bool-cases (os.exists (dir ++ b'/' ∷ name) s)) [
    | inr e ↦ inl (rw (unique_dest, e) e)
    | inl e ↦ elim (unique_from_lem (k_rounds os) 1 (dir ++ b'/' ∷ name) s) [
      | inl free ↦ inl (rw (unique_dest, e) free)
      | inr taken ↦ inr (e, λ j low high. taken j low (omega arith))
    ]
  ]
