-- ===== src/Macros/Race.antt =====
-- Threads at one site of `SLOG_LOG_EVERY_N_SEC`: each reads the clock and the site's number, and later
-- tries to exchange what it read for its own time.
use mathlib.Core.Bool.{◌||◌, ◌&&◌}
use simple_logger.Base.{
  ℕ, ◌≡◌, refl, Bool, true, false, Option, none, some, List, [], ◌∷◌, if◌then◌else◌, if_both, ◌==◌,
  Bool-cases, inl, inr, All, subst, ◌⊎◌,
}
use simple_logger.Base.Int.{ℤ, leb_ℤ, eqb_ℤ, eqb_ℤ_iff, ◌-ℤ◌}
use simple_logger.Macros.{never, every_sec}

-- What happens next: a thread reads, at a time, or makes its exchange.
pub data Event : Type 0 where
  reads : ℕ → ℤ → Event
  exchanges : ℕ → Event

-- What each thread read of the clock and of the site and has not used yet, the site's number, and the
-- times it logged at, the latest first.
pub record Site : Type 0 where
  pub read : ℕ → Option (ℤ × ℤ)
  pub last : ℤ
  pub logged : List ℤ

abbrev pub fresh_site : Site
fresh_site = record { read = λ i. none; last = never; logged = [] }

abbrev set_read : ℕ → Option (ℤ × ℤ) → (ℕ → Option (ℤ × ℤ)) → ℕ → Option (ℤ × ℤ)
set_read i o read j = if j == i then o else read j

-- The exchange of a thread that read, or of none.
abbrev pub exchange : ℤ → ℕ → Site → Option (ℤ × ℤ) → Site
exchange gap i s none = s
exchange gap i s (some (now, prev)) =
    let (fires, last) = every_sec gap now prev s.last in
    record {
      read = set_read i none s.read;
      last = last;
      logged = if fires then now ∷ s.logged else s.logged;
    }

unfoldable pub happen : ℤ → Event → Site → Site
happen gap (Event.reads i t) s = record s { read = set_read i (some (t, s.last)) s.read }
happen gap (Event.exchanges i) s = exchange gap i s (s.read i)

unfoldable pub run : ℤ → List Event → Site → Site
run gap [] s = s
run gap (e ∷ events) s = run gap events (happen gap e s)

-- The latest first, each is at least the gap behind the one before it.
abbrev pub AreSpaced : ℤ → List ℤ → Type 0
AreSpaced gap [] = Unit
AreSpaced gap (t ∷ []) = Unit
AreSpaced gap (t ∷ u ∷ ts) = (leb_ℤ gap (t -ℤ u) ≡ true) × AreSpaced gap (u ∷ ts)

abbrev pub IsTime : Event → Type 0
IsTime (Event.reads i t) = eqb_ℤ t never ≡ false
IsTime (Event.exchanges i) = Unit

-- What was read before the first time was logged.
abbrev IsUnused : Option (ℤ × ℤ) → Type 0
IsUnused none = Unit
IsUnused (some (now, prev)) = prev ≡ never

abbrev IsRead : Option (ℤ × ℤ) → Type 0
IsRead none = Unit
IsRead (some (now, prev)) = eqb_ℤ now never ≡ false

-- The site's number is the latest time that was logged; before the first, no thread has read one.
abbrev IsTip : ℤ → (ℕ → Option (ℤ × ℤ)) → List ℤ → Type 0
IsTip last read [] = (last ≡ never) × ((i : ℕ) → IsUnused (read i))
IsTip last read (t ∷ ts) = (last ≡ t) × (eqb_ℤ t never ≡ false)

abbrev IsFair : ℤ → (ℕ → Option (ℤ × ℤ)) → ℤ → List ℤ → Type 0
IsFair gap read last logged =
    IsTip last read logged × AreSpaced gap logged × ((i : ℕ) → IsRead (read i))

put-IsTip :
    (i : ℕ) (t last : ℤ) (read : ℕ → Option (ℤ × ℤ)) (logged : List ℤ)
    → IsTip last read logged
    → IsTip last (set_read i (some (t, last)) read) logged
put-IsTip i t last read [] (same, unused) =
    (same, λ j. if_both IsUnused (j == i) _ _ same (unused j))
put-IsTip i t last read (u ∷ ts) h = h

used-IsTip :
    (i : ℕ) (last : ℤ) (read : ℕ → Option (ℤ × ℤ)) (logged : List ℤ)
    → IsTip last read logged
    → IsTip last (set_read i none read) logged
used-IsTip i last read [] (same, unused) = (same, λ j. if_both IsUnused (j == i) _ _ tt (unused j))
used-IsTip i last read (u ∷ ts) h = h

first_exchange :
    (gap now prev last : ℤ)
    → prev ≡ never
    → last ≡ never
    → every_sec gap now prev last ≡ (true, now)
unfolding every_sec
first_exchange gap now prev last h k = rw (h, k) refl

-- An exchange logs at least the gap behind the last time, or changes nothing.
later_exchange :
    (gap now prev last : ℤ)
    → eqb_ℤ last never ≡ false
    → ((every_sec gap now prev last ≡ (true, now)) × (leb_ℤ gap (now -ℤ last) ≡ true))
      ⊎ (every_sec gap now prev last ≡ (false, last))
unfolding every_sec
later_exchange gap now prev last h =
    let due = eqb_ℤ prev never || leb_ℤ gap (now -ℤ prev) in
    elim (Bool-cases (eqb_ℤ prev last)) [
      | inl same ↦
          let here : prev ≡ last = (eqb_ℤ_iff prev last).0 same in
          elim (Bool-cases (leb_ℤ gap (now -ℤ last))) [
            | inl passed ↦ inl (rw (here, h, passed, (eqb_ℤ_iff last last).1 refl) refl, passed)
            | inr early ↦ inr (rw (here, h, early) refl)
          ]
      | inr lost ↦ inr (rw lost (and_lost due (true, now) (false, last)))
    ]
  where
    and_lost : (b : Bool) (x y : Bool × ℤ) → (if b && false then x else y) ≡ y
    and_lost true x y = refl
    and_lost false x y = refl

exchanged-IsFair :
    (gap : ℤ) (i : ℕ) (now prev : ℤ) (read : ℕ → Option (ℤ × ℤ)) (last : ℤ) (logged : List ℤ)
    → read i ≡ some (now, prev)
    → IsFair gap read last logged
    → let (fires, last') = every_sec gap now prev last in
      IsFair gap (set_read i none read) last' (if fires then now ∷ logged else logged)
exchanged-IsFair gap i now prev read last [] e (tip, spaced, clocks) =
    rw (first_exchange gap now prev last (subst IsUnused e (tip.1 i)) tip.0)
      ((refl, subst IsRead e (clocks i)), tt, λ j. if_both IsRead (j == i) _ _ tt (clocks j))
exchanged-IsFair gap i now prev read last (t ∷ ts) e (tip, spaced, clocks) =
    let clocks' : (j : ℕ) → IsRead (set_read i none read j) =
      λ j. if_both IsRead (j == i) _ _ tt (clocks j) in
    elim (later_exchange gap now prev last (rw tip.0 tip.1)) [
      | inl (fires, passed) ↦ rw fires (
        (refl, subst IsRead e (clocks i)),
        (subst (λ l. leb_ℤ gap (now -ℤ l) ≡ true) tip.0 passed, spaced),
        clocks',
      )
      | inr lost ↦ rw lost (tip, spaced, clocks')
    ]

abbrev IsFairSite : ℤ → Site → Type 0
IsFairSite gap s = IsFair gap s.read s.last s.logged

exchange-IsFairSite :
    (gap : ℤ) (i : ℕ) (s : Site)
    → IsFairSite gap s
    → (o : Option (ℤ × ℤ)) → s.read i ≡ o
    → IsFairSite gap (exchange gap i s o)
exchange-IsFairSite gap i s fair none e = fair
exchange-IsFairSite gap i s fair (some (now, prev)) e =
    exchanged-IsFair gap i now prev s.read s.last s.logged e fair

happen-IsFairSite :
    (gap : ℤ) (e : Event) (s : Site) → IsTime e → IsFairSite gap s → IsFairSite gap (happen gap e s)
unfolding happen
happen-IsFairSite gap (Event.reads i t) s h (tip, spaced, clocks) = (
  put-IsTip i t s.last s.read s.logged tip,
  spaced,
  λ j. if_both IsRead (j == i) _ _ h (clocks j),
)
happen-IsFairSite gap (Event.exchanges i) s h fair =
    exchange-IsFairSite gap i s fair (s.read i) refl

run-IsFairSite :
    (gap : ℤ) (events : List Event) (s : Site)
    → All IsTime events
    → IsFairSite gap s
    → IsFairSite gap (run gap events s)
unfolding run
run-IsFairSite gap [] s h fair = fair
run-IsFairSite gap (e ∷ events) s h fair =
    run-IsFairSite gap events (happen gap e s) h.1 (happen-IsFairSite gap e s h.0 fair)

-- However the threads at a site overlap, the times at which it logs are at least the gap apart; for times
-- other than INT64_MIN.
pub run-AreSpaced :
    (gap : ℤ) (events : List Event)
    → All IsTime events
    → AreSpaced gap (run gap events fresh_site).logged
run-AreSpaced gap events h =
    (run-IsFairSite gap events fresh_site h ((refl, λ i. tt), tt, λ i. tt)).1
