-- ===== src/Logger/Threads/Race.antt =====
-- The race of src/logger.cpp's threads for a module's file, in any order of their steps.
use simple_logger.Base.{
  ℕ, ◌≡◌, ◌≢◌, refl, sym, ap, subst, ◌∙◌, ◌⊎◌, inl, inr, true, false, some, List, [], ◌∷◌, Bytes,
  arith, if_both, ◌==◌, Bool-cases,
}
use simple_logger.Base.Dict.{lookup}
use simple_logger.Base.Int.{ℤ, eqb_ℤ}
use simple_logger.Format.{TimeText}
use simple_logger.Os.{Os}
use simple_logger.RunDir.{Run}
use simple_logger.Logger.{Module, OpenErr, not_opened, no_open_err}
use simple_logger.Logger.Files.{World, ensure_file_open}
use simple_logger.Logger.Admit.{state_of, state_or}
use simple_logger.Logger.Threads.{Pc, turn, loaded, System, start, step, run}
use simple_logger.Logger.Threads.Stored.{OpensReal, ensure_file_open-LeavesStored, open_already}

same_index : (i : ℕ) → (i == i) ≡ true
same_index i = ground arith

other_index : (j i : ℕ) → j ≢ i → (j == i) ≡ false
other_index j i h = ground arith

ℕ-cases : (i j : ℕ) → (i ≡ j) ⊎ (i ≢ j)
ℕ-cases i j = elim (Bool-cases (i == j)) [
  | inl h ↦ inl (ground arith)
  | inr h ↦ inr (λ e. ground arith)
]

module _ (os : Os) (tt_ : TimeText) (sort : List Run → List Run) where
  module _ (key : Bytes) (ms : Module) (w : World os tt_ sort) where
    -- What one call alone answers and leaves behind.
    abbrev pub alone : (ℤ × OpenErr) × World os tt_ sort
    alone = ensure_file_open os tt_ sort ms w

    abbrev pub IsOut : Pc → Type 0
    IsOut Pc.loading = Unit
    IsOut Pc.waiting = Unit
    IsOut (Pc.back fd oe) = ⊥

    -- The thread is not back yet, or with the descriptor of the one call and nothing to report.
    abbrev pub Follows : Pc → Type 0
    Follows Pc.loading = Unit
    Follows Pc.waiting = Unit
    Follows (Pc.back fd oe) = (fd ≡ alone.0.0) × (oe ≡ no_open_err)

    abbrev pub IsUntouched : System os tt_ sort key → Type 0
    IsUntouched s = (s.world ≡ w) × ((i : ℕ) → IsOut (s.pc i))

    abbrev pub IsWonBy : ℕ → System os tt_ sort key → Type 0
    IsWonBy winner s =
        (s.world ≡ alone.1)
        × (s.pc winner ≡ Pc.back alone.0.0 alone.0.1)
        × ((i : ℕ) → i ≢ winner → Follows (s.pc i))

    abbrev pub IsRaced : System os tt_ sort key → Type 0
    IsRaced s = IsUntouched s ⊎ ((winner : ℕ) × IsWonBy winner s)

    -- What a thread's first step makes of the start, or its second.
    abbrev IsFirst : Pc × World os tt_ sort → Type 0
    IsFirst t = ((t.1 ≡ w) × IsOut t.0) ⊎ (t ≡ (Pc.back alone.0.0 alone.0.1, alone.1))

    abbrev IsBehind : Pc × World os tt_ sort → Type 0
    IsBehind t = (t.1 ≡ alone.1) × Follows t.0

    IsOut-Follows : (p : Pc) → IsOut p → Follows p
    IsOut-Follows Pc.loading h = tt
    IsOut-Follows Pc.waiting h = tt
    IsOut-Follows (Pc.back fd oe) h = absurd h

    turn_back :
        (p : Pc) (fd : ℤ) (oe : OpenErr) (v : World os tt_ sort)
        → p ≡ Pc.back fd oe
        → turn os tt_ sort key p v ≡ (p, v)
    unfolding turn
    turn_back Pc.loading fd oe v e = cc
    turn_back Pc.waiting fd oe v e = cc
    turn_back (Pc.back fd' oe') fd oe v e = refl

  module _ (real : OpensReal os) (key : Bytes) (ms : Module) (named : ms.name ≡ key)
      (w : World os tt_ sort) (known : lookup key w.1.0.modules ≡ some ms)
      (missing : eqb_ℤ ms.file_fd not_opened ≡ true) where
    here : state_of key w.1.0 ≡ ms
    here = ap (state_or key) known

    -- The first to open, or one that is not back yet.
    turn-IsFirst : (p : Pc) → IsOut key ms w p → IsFirst key ms w (turn os tt_ sort key p w)
    unfolding turn
    turn-IsFirst Pc.loading out = inl (
      refl,
      subst (λ (m : Module). IsOut key ms w (loaded os tt_ sort key m.file_fd)) (sym here)
          (rw missing tt),
    )
    turn-IsFirst Pc.waiting out = inr (
        ap (λ m. let ((fd, oe), w') = ensure_file_open os tt_ sort m w in (Pc.back fd oe, w')) here)
    turn-IsFirst (Pc.back fd oe) out = elim out [ ]

    left :
        (eqb_ℤ (alone key ms w).0.0 not_opened ≡ false)
        × ((state_of key (alone key ms w).1.1.0).file_fd ≡ (alone key ms w).0.0)
    left = ensure_file_open-LeavesStored os tt_ sort real key ms named w.0 w.1.0 w.1.1 known missing

    turn-IsBehind :
        (p : Pc)
        → Follows key ms w p
        → IsBehind key ms w (turn os tt_ sort key p (alone key ms w).1)
    unfolding turn
    turn-IsBehind Pc.loading h = (
      refl,
      subst (λ fd. Follows key ms w (loaded os tt_ sort key fd)) (sym left.1)
          (rw left.0 (refl, refl)),
    )
    turn-IsBehind Pc.waiting h =
        let now = state_of key (alone key ms w).1.1.0 in
        rw
          (open_already os tt_ sort now (alone key ms w).1
            (ap (λ fd. eqb_ℤ fd not_opened) left.1 ∙ left.0))
          (refl, (left.1, refl))
    turn-IsBehind (Pc.back fd oe) h = (refl, h)

    step-untouched :
        (i : ℕ) (s : System os tt_ sort key)
        → IsUntouched key ms w s
        → IsRaced key ms w (step os tt_ sort key i s)
    step-untouched i s (same, out) =
        let took = turn os tt_ sort key (s.pc i) s.world in
        let cases : IsFirst key ms w took =
          subst (λ v. IsFirst key ms w (turn os tt_ sort key (s.pc i) v)) (sym same)
            (turn-IsFirst (s.pc i) (out i)) in
        elim cases [
          | inl (kept, out') ↦ inl (kept, λ j. if_both (IsOut key ms w) (j == i) _ _ out' (out j))
          | inr first ↦ inr (
            i,
            (
              ap (λ (t : Pc × World os tt_ sort). t.1) first,
              rw (same_index i) (ap (λ (t : Pc × World os tt_ sort). t.0) first),
              λ j other. rw (other_index j i other) (IsOut-Follows key ms w (s.pc j) (out j)),
            ),
          )
        ]

    step-won :
        (i winner : ℕ) (s : System os tt_ sort key)
        → IsWonBy key ms w winner s
        → IsWonBy key ms w winner (step os tt_ sort key i s)
    step-won i winner s (same, won, follow) = elim (ℕ-cases winner i) [
      | inl mine ↦
          subst (λ i. IsWonBy key ms w winner (step os tt_ sort key i s)) mine
            (rw (turn_back key ms w (s.pc winner) _ _ s.world won) (
              same,
              if_both (λ p. p ≡ Pc.back (alone key ms w).0.0 (alone key ms w).0.1)
                  (winner == winner) _ _ won won,
              λ j other. rw (other_index j winner other) (follow j other),
            ))
      | inr other ↦
          let (kept, follows) =
            subst (λ v. IsBehind key ms w (turn os tt_ sort key (s.pc i) v)) (sym same)
              (turn-IsBehind (s.pc i) (follow i (λ e. other (sym e)))) in
          (
            kept,
            rw (other_index winner i other) won,
            λ j beside. if_both (Follows key ms w) (j == i) _ _ follows (follow j beside),
          )
    ]

    step-IsRaced :
        (i : ℕ) (s : System os tt_ sort key)
        → IsRaced key ms w s
        → IsRaced key ms w (step os tt_ sort key i s)
    step-IsRaced i s (inl h) = step-untouched i s h
    step-IsRaced i s (inr (winner, h)) = inr (winner, step-won i winner s h)

    run-IsRaced :
        (turns : List ℕ) (s : System os tt_ sort key)
        → IsRaced key ms w s
        → IsRaced key ms w (run os tt_ sort key turns s)
    unfolding run
    run-IsRaced [] s h = h
    run-IsRaced (i ∷ turns) s h = run-IsRaced turns (step os tt_ sort key i s) (step-IsRaced i s h)

    -- Threads that all need the file of a known module that was not opened yet, in any order of their
    -- steps: either none is back and the world is as it was, or the world is the one that a single call
    -- leaves, one thread has that call's answer and report, and every other that is back has the same
    -- descriptor and nothing to report.
    pub run-opens_once :
        (turns : List ℕ) → IsRaced key ms w (run os tt_ sort key turns (start os tt_ sort key w))
    run-opens_once turns = run-IsRaced turns (start os tt_ sort key w) (inl (refl, λ i. tt))
