-- ===== src/Logger/Threads/Stored.antt =====
-- What `ensure_file_open` of src/logger.cpp stores for the threads that come later.
use simple_logger.Base.{
  ◌≡◌, refl, sym, ap, subst, ◌∙◌, true, false, Option, none, some, List, Bytes, arith, if_both,
  if◌then◌else◌, beq_iff,
}
use simple_logger.Base.Dict.{Dict, lookup, insert, lookup-insert}
use simple_logger.Base.Int.{ℤ, pos, leb_ℤ, ltb_ℤ, eqb_ℤ}
use simple_logger.Errors.{ErrorState}
use simple_logger.Format.{TimeText}
use simple_logger.Os.{Os, Outcome, good, bad}
use simple_logger.RunDir.{Run, RunDir, open_log_file}
use simple_logger.Logger.{Module, Logger, OpenErr, not_opened, gave_up, no_open_err}
use simple_logger.Logger.Files.{
  World, add_fd, set_fd, store_fd, register_crash_fd, cached_pid, take_run, open_now,
  ensure_run_open, take_file, file_in_run, ensure_file_open,
}
use simple_logger.Logger.Admit.{state_of, state_or}

-- `openat` answers no negative descriptor.
abbrev pub OpensReal : Os → Type 0
OpensReal os =
    (fd : ℤ) (p : Bytes) (s : os.State) (got : ℤ)
    → (open_log_file os fd p s).0 ≡ good got
    → leb_ℤ (pos 0) got ≡ true

module _ (os : Os) (tt_ : TimeText) (sort : List Run → List Run) where
  take_run-modules :
      (dir first_file : Bytes) (rd : RunDir) (lg : Logger)
      → (take_run os tt_ sort dir first_file rd lg).1.modules ≡ lg.modules
  unfolding take_run register_crash_fd
  take_run-modules dir first_file rd lg = ground arith

  open_now-modules :
      (e : ErrorState) (lg : Logger) (s : os.State)
      → (open_now os tt_ sort (e, (lg, s))).1.1.0.modules ≡ lg.modules
  unfolding open_now cached_pid
  open_now-modules e lg s = take_run-modules _ _ _ _

  ensure_run_open-modules :
      (e : ErrorState) (lg : Logger) (s : os.State)
      → (ensure_run_open os tt_ sort (e, (lg, s))).1.1.0.modules ≡ lg.modules
  unfolding ensure_run_open
  ensure_run_open-modules e lg s = ground (arith, open_now-modules e lg s)

  module _ (real : OpensReal os) (key : Bytes) (ms : Module) (named : ms.name ≡ key) where
    -- The module's descriptor is the answer, which does not say that the file was not opened.
    abbrev pub IsStored : ℤ → Logger → Type 0
    IsStored fd lg = (eqb_ℤ fd not_opened ≡ false) × ((state_of key lg).file_fd ≡ fd)

    pub store_fd-IsStored :
        (fd : ℤ) (lg : Logger)
        → lookup key lg.modules ≡ some ms
        → eqb_ℤ fd not_opened ≡ false
        → IsStored fd (store_fd ms.name fd lg)
    store_fd-IsStored fd lg known is_fd =
        let put = λ (o : Option Module). elim o as (λ o. Dict Module) [
          | none ↦ lg.modules
          | some m ↦ insert key (set_fd fd m) lg.modules
        ] in
        let found : lookup key (insert key (set_fd fd ms) lg.modules) ≡ some (set_fd fd ms) =
          lookup-insert key key (set_fd fd ms) lg.modules
          ∙ ap (λ b. if b then some (set_fd fd ms) else lookup key lg.modules)
              ((beq_iff key key).1 refl) in
        (
          is_fd,
          subst (λ n. (state_of key (store_fd n fd lg)).file_fd ≡ fd) (sym named)
              (ap (λ o. (state_or key (lookup key (put o))).file_fd) known
                ∙ ap (λ o. (state_or key o).file_fd) found),
        )

    take_file-IsStored :
        (o : Outcome ℤ) (lg : Logger)
        → ((got : ℤ) → o ≡ good got → leb_ℤ (pos 0) got ≡ true)
        → lookup key lg.modules ≡ some ms
        → let ((fd, oe), lg') = take_file os tt_ sort ms o lg in IsStored fd lg'
    unfolding register_crash_fd
    take_file-IsStored (good fd) lg answer known =
        store_fd-IsStored fd (add_fd fd lg) (ground arith) (ground (arith, answer fd refl))
    take_file-IsStored (bad err) lg answer known = store_fd-IsStored gave_up lg known refl

    -- What `ensure_file_open` leaves for the other threads.
    abbrev pub LeavesStored : (ℤ × OpenErr) × World os tt_ sort → Type 0
    LeavesStored ((fd, oe), (e, (lg, s))) = IsStored fd lg

    file_in_run-LeavesStored :
        (oe : OpenErr) (e : ErrorState) (lg : Logger) (s : os.State)
        → lookup key lg.modules ≡ some ms
        → LeavesStored (file_in_run os tt_ sort ms oe (e, (lg, s)))
    unfolding file_in_run cached_pid
    file_in_run-LeavesStored oe e lg s known =
        let shared = if ltb_ℤ lg.shared_fd (pos 0) then gave_up else lg.shared_fd in
        if_both LeavesStored lg.settings.file_per_module _ _
          (take_file-IsStored _ (record lg { pid = _ }) (real _ _ _) known)
          (store_fd-IsStored shared lg known (ground arith))

    pub ensure_file_open-LeavesStored :
        (e : ErrorState) (lg : Logger) (s : os.State)
        → lookup key lg.modules ≡ some ms
        → eqb_ℤ ms.file_fd not_opened ≡ true
        → LeavesStored (ensure_file_open os tt_ sort ms (e, (lg, s)))
    unfolding ensure_file_open
    ensure_file_open-LeavesStored e lg s known missing =
        let ((ok, oe), w) = ensure_run_open os tt_ sort (e, (lg, s)) in
        let known' : lookup key w.1.0.modules ≡ some ms =
          ap (lookup key) (ensure_run_open-modules e lg s) ∙ known in
        rw missing (
          if_both LeavesStored ok _ _ (file_in_run-LeavesStored oe w.0 w.1.0 w.1.1 known')
            (store_fd-IsStored gave_up w.1.0 known' refl))

  pub open_already :
      (ms : Module) (w : World os tt_ sort)
      → eqb_ℤ ms.file_fd not_opened ≡ false
      → ensure_file_open os tt_ sort ms w ≡ ((ms.file_fd, no_open_err), w)
  unfolding ensure_file_open
  open_already ms (e, (lg, s)) h = rw h refl
