-- ===== src/Macros/Limits.antt =====
-- How often the rate limits let a call through.
use mathlib.Core.Bool.{◌||◌, ◌&&◌}
use simple_logger.Base.{
  ℕ, zero, suc, ◌+◌, ◌-◌, ◌%◌, ◌<◌, ◌≡◌, refl, ap, ◌∙◌, Bool, true, false, List, [], ◌∷◌, arith,
  ltb, ◌==◌, if◌then◌else◌, get_or, min, Bool-cases, inl, inr,
}
use simple_logger.Base.Int.{ℤ, pos, ltb_ℤ, eqb_ℤ, eqb_ℤ_iff, leb_ℤ, ◌-ℤ◌}
use simple_logger.Macros.{every_n, first_n, every_sec, never, run, k_word, fire_times}

-- The calls that log.
abbrev pub count : List Bool → ℕ
count [] = 0
count (true ∷ bs) = suc (count bs)
count (false ∷ bs) = count bs

first_n_fires :
    (n counter : ℕ)
    → 0 < n
    → counter < k_word - 1
    → first_n (pos n) counter ≡ (ltb counter n, counter + 1)
unfolding first_n
first_n_fires n counter h k = ground arith

count_cons : (b : Bool) (bs : List Bool) → count (b ∷ bs) ≡ (if b then suc (count bs) else count bs)
count_cons true bs = refl
count_cons false bs = refl

nth-first_n :
    (n calls counter i : ℕ)
    → 0 < n
    → i < calls
    → counter + calls < k_word
    → get_or (run (first_n (pos n)) calls counter) i false ≡ ltb (counter + i) n
unfolding run
nth-first_n n zero counter i h j k = absurd (omega arith)
nth-first_n n (suc calls) counter zero h j k =
    rw (first_n_fires n counter h (omega arith)) (ap (λ m. ltb m n) (omega arith))
nth-first_n n (suc calls) counter (suc i) h j k = rw (first_n_fires n counter h (omega arith)) (
    nth-first_n n calls (counter + 1) i h (omega arith) (omega arith)
    ∙ ap (λ m. ltb m n) (omega arith))

count-first_n :
    (n calls counter : ℕ)
    → 0 < n
    → counter + calls < k_word
    → count (run (first_n (pos n)) calls counter) ≡ min calls (n - counter)
unfolding run
count-first_n n zero counter h k = omega arith
count-first_n n (suc calls) counter h k =
    let rest = count-first_n n calls (counter + 1) h (omega arith) in
    rw (first_n_fires n counter h (omega arith)) (
      count_cons (ltb counter n) (run (first_n (pos n)) calls (counter + 1))
      ∙ (ground (arith, rest)))

-- Of any number of calls at a fresh site, `LOG_FIRST_N` with an N of 1 or more logs the first N, and all
-- if there are fewer; for fewer calls than 2^64.
pub first_n-count :
    (n calls : ℕ)
    → 0 < n
    → calls < k_word
    → (count (run (first_n (pos n)) calls 0) ≡ min calls n)
      × ((i : ℕ) → i < calls → get_or (run (first_n (pos n)) calls 0) i false ≡ ltb i n)
first_n-count n calls h k = (
  count-first_n n calls 0 h (omega arith) ∙ ap (min calls) (omega arith),
  λ i j. nth-first_n n calls 0 i h j (omega arith) ∙ ap (λ m. ltb m n) (omega arith),
)

every_n_fires :
    (n counter : ℕ)
    → 0 < n
    → counter < k_word - 1
    → every_n (pos n) counter ≡ (counter % n == 0, counter + 1)
unfolding every_n
every_n_fires n counter h k =
    let due : ltb_ℤ (pos 0) (pos n) ≡ true = ground arith in
    ap (λ b. if b then (counter % n == 0, (counter + 1) % k_word) else (false, counter)) due
    ∙ ap (λ m. (counter % n == 0, m)) (omega arith)

nth-every_n :
    (n calls counter i : ℕ)
    → 0 < n
    → i < calls
    → counter + calls < k_word
    → get_or (run (every_n (pos n)) calls counter) i false ≡ ((counter + i) % n == 0)
unfolding run
nth-every_n n zero counter i h j k = absurd (omega arith)
nth-every_n n (suc calls) counter zero h j k =
    rw (every_n_fires n counter h (omega arith)) (ap (λ m. m % n == 0) (omega arith))
nth-every_n n (suc calls) counter (suc i) h j k = rw (every_n_fires n counter h (omega arith)) (
    nth-every_n n calls (counter + 1) i h (omega arith) (omega arith)
    ∙ ap (λ m. m % n == 0) (omega arith))

-- At a fresh site, `LOG_EVERY_N` with an N of 1 or more logs the calls whose place, from 0 on, is a
-- multiple of N, and no others; for fewer calls than 2^64.
pub every_n-nth :
    (n calls i : ℕ)
    → 0 < n
    → i < calls
    → calls < k_word
    → get_or (run (every_n (pos n)) calls 0) i false ≡ (i % n == 0)
every_n-nth n calls i h j k =
    nth-every_n n calls 0 i h j (omega arith) ∙ ap (λ m. m % n == 0) (omega arith)

-- Each time is at least the gap behind the one before it.
abbrev pub IsSpaced : ℤ → ℤ → List ℤ → Type 0
IsSpaced gap last [] = Unit
IsSpaced gap last (t ∷ ts) = (leb_ℤ gap (t -ℤ last) ≡ true) × IsSpaced gap t ts

-- No time is the start value of the site.
abbrev pub AreTimes : List ℤ → Type 0
AreTimes [] = Unit
AreTimes (t ∷ ts) = (eqb_ℤ t never ≡ false) × AreTimes ts

and_true : {A : Type 0} (b : Bool) (x y : A) → (if b && true then x else y) ≡ (if b then x else y)
and_true true x y = refl
and_true false x y = refl

every_sec_later :
    (gap now last : ℤ)
    → eqb_ℤ last never ≡ false
    → every_sec gap now last last ≡ (if leb_ℤ gap (now -ℤ last) then (true, now) else (false, last))
unfolding every_sec
every_sec_later gap now last h =
    let due = leb_ℤ gap (now -ℤ last) in
    ap (λ p. if (p || due) && eqb_ℤ last last then (true, now) else (false, last)) h
    ∙ ap (λ q. if due && q then (true, now) else (false, last)) ((eqb_ℤ_iff last last).1 refl)
    ∙ and_true due (true, now) (false, last)

IsSpaced-behind :
    (gap : ℤ) (times : List ℤ) (last : ℤ)
    → AreTimes times
    → eqb_ℤ last never ≡ false
    → IsSpaced gap last (fire_times gap times last)
unfolding fire_times
IsSpaced-behind gap [] last h k = tt
IsSpaced-behind gap (now ∷ times) last h k =
    let fired = IsSpaced-behind gap times now h.1 h.0 in
    let held = IsSpaced-behind gap times last h.1 k in
    elim (Bool-cases (leb_ℤ gap (now -ℤ last))) [
      | inl due ↦ rw (every_sec_later gap now last k, due) (due, fired)
      | inr early ↦ rw (every_sec_later gap now last k, early) held
    ]

-- The first time at which a site logs is the first call's, and from then on it logs at times that are
-- at least the gap apart, by the clock's order or not; for times other than INT64_MIN.
pub fire_times-IsSpaced :
    (gap now : ℤ) (times : List ℤ)
    → AreTimes (now ∷ times)
    → (rest : List ℤ) × (fire_times gap (now ∷ times) never ≡ now ∷ rest) × IsSpaced gap now rest
unfolding fire_times every_sec
fire_times-IsSpaced gap now times h =
    (fire_times gap times now, refl, IsSpaced-behind gap times now h.1 h.0)
