-- ===== src/Base/Dict.antt =====
-- `std::map` with string keys: pairs in the order of their keys.
use simple_logger.Base.{
  ◌≡◌, refl, true, Option, none, some, List, [], ◌∷◌, arith, Bytes, beq, beq_iff, less, less_irrefl,
  less_trans, less_total, if◌then◌else◌,
}

abbrev pub Dict {ℓ} : Type ℓ → Type ℓ
Dict V = List (Bytes × V)

module _ {ℓ} {V : Type ℓ} where
  -- `find`
  unfoldable pub lookup : Bytes → Dict V → Option V
  lookup k [] = none
  lookup k ((j, v) ∷ m) = if beq j k then some v else lookup k m

  -- `m[k] = v`
  unfoldable pub insert : Bytes → V → Dict V → Dict V
  insert k v [] = (k, v) ∷ []
  insert k v ((j, w) ∷ m) =
      if beq j k
      then (j, v) ∷ m
      else if less k j
      then (k, v) ∷ (j, w) ∷ m
      else (j, w) ∷ insert k v m

  -- `erase`
  unfoldable pub erase : Bytes → Dict V → Dict V
  erase k [] = []
  erase k ((j, w) ∷ m) = let rest = erase k m in if beq j k then rest else (j, w) ∷ rest

  pub lookup-insert :
      (k j : Bytes) (v : V) (m : Dict V)
      → lookup j (insert k v m) ≡ (if beq k j then some v else lookup j m)
  unfolding lookup insert
  lookup-insert k j v [] = refl
  lookup-insert k j v ((i, w) ∷ m) =
      ground (arith, beq_iff k j, beq_iff i k, beq_iff i j, lookup-insert k j v m)

  pub lookup-erase :
      (k j : Bytes) (m : Dict V) → lookup j (erase k m) ≡ (if beq k j then none else lookup j m)
  unfolding lookup erase
  lookup-erase k j [] = ground arith
  lookup-erase k j ((i, w) ∷ m) =
      ground (arith, beq_iff k j, beq_iff i k, beq_iff i j, lookup-erase k j m)

  -- Every key of `m` is behind `k`.
  abbrev pub Above : Bytes → Dict V → Type 0
  Above k [] = Unit
  Above k ((j, w) ∷ m) = (less k j ≡ true) × Above k m

  -- The order in which a `std::map` is walked; no key stands twice.
  abbrev pub IsSorted : Dict V → Type 0
  IsSorted [] = Unit
  IsSorted ((k, v) ∷ m) = Above k m × IsSorted m

  pub lookup-Above : (k : Bytes) (m : Dict V) → Above k m → lookup k m ≡ none
  unfolding lookup
  lookup-Above k [] h = refl
  lookup-Above k ((j, w) ∷ m) h = ground (arith, lookup-Above k m h.1, beq_iff j k, less_irrefl k)

  Above-trans : (a k : Bytes) (m : Dict V) → less a k ≡ true → Above k m → Above a m
  Above-trans a k [] l h = tt
  Above-trans a k ((j, w) ∷ m) l h = (less_trans a k j l h.0, Above-trans a k m l h.1)

  insert-Above :
      (a k : Bytes) (v : V) (m : Dict V) → Above a m → less a k ≡ true → Above a (insert k v m)
  unfolding insert
  insert-Above a k v [] h l = (l, tt)
  insert-Above a k v ((j, w) ∷ m) h l = ground (arith, insert-Above a k v m h.1 l)

  -- Assignment keeps a map in order.
  pub insert-IsSorted : (k : Bytes) (v : V) (m : Dict V) → IsSorted m → IsSorted (insert k v m)
  unfolding insert
  insert-IsSorted k v [] h = (tt, tt)
  insert-IsSorted k v ((j, w) ∷ m) h = ground (
    arith,
    insert-IsSorted k v m h.1,
    insert-Above j k v m h.0,
    less_total k j,
    Above-trans k j m,
  )
