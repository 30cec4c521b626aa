-- ===== src/Logger/State/Opening.antt =====
-- The lazy opening of src/logger.cpp's files, on a well-formed logger.
use simple_logger.Base.{◌≡◌, refl, Bool, true, not, List, Bytes, if_both, if◌then◌else◌, ◌==◌}
use simple_logger.Base.Int.{ℤ, pos, leb_ℤ, ltb_ℤ, eqb_ℤ}
use simple_logger.Level.{Registry}
use simple_logger.Errors.{ErrorState}
use simple_logger.Format.{TimeText}
use simple_logger.Os.{Os, Outcome, good, bad}
use simple_logger.RunDir.{Run, RunDir}
use simple_logger.Logger.{Module, Logger, OpenErr, gave_up, not_opened}
use simple_logger.Logger.Files.{
  World, add_fd, cached_pid, take_shared, take_run, open_now, ensure_run_open, take_file,
  file_in_run, ensure_file_open,
}
use simple_logger.Logger.State.{is_held, IsWellFormed, Layers}
use simple_logger.Logger.State.Held.{
  add_fd-IsWellFormed, add_shared-IsWellFormed, store_fd-IsWellFormed, is_held-new,
}

module _ (os : Os) (tt_ : TimeText) (sort : List Run → List Run) (r : Registry) (l : Layers) where
  with_shared :
      (fd : ℤ) (lg : Logger)
      → IsWellFormed r l lg
      → is_held lg.open_fds fd ≡ true
      → IsWellFormed r l (record lg { shared_fd = fd })
  with_shared fd lg (c, d, same) held =
      (c, record { shared = held; kept = d.kept; counted = d.counted; mirrored = d.mirrored }, same)

  take_shared-IsWellFormed :
      (first_file : Bytes) (rd : RunDir) (lg : Logger)
      → IsWellFormed r l lg
      → IsWellFormed r l (take_shared os tt_ sort first_file rd lg).1
  take_shared-IsWellFormed first_file rd lg h =
      if_both (λ (res : OpenErr × Logger). IsWellFormed r l res.1) (leb_ℤ (pos 0) rd.first_fd) _ _
        ((add_shared-IsWellFormed rd.first_fd rd.first_fd lg h
          (is_held-new lg.open_fds rd.first_fd)).0)
        (with_shared gave_up lg h refl)

  take_run-IsWellFormed :
      (dir first_file : Bytes) (rd : RunDir) (lg : Logger)
      → IsWellFormed r l lg
      → IsWellFormed r l (take_run os tt_ sort dir first_file rd lg).1
  unfolding take_run
  take_run-IsWellFormed dir first_file rd lg h =
      let lg' = record lg { run_dir_fd = rd.dir_fd; run_lock_fd = rd.run_lock_fd } in
      let P = λ (res : (Bool × OpenErr) × Logger). IsWellFormed r l res.1 in
      if_both P (not rd.ok) _ _ h
        (if_both P lg.settings.file_per_module _ _ h (take_shared-IsWellFormed first_file rd lg' h))

  open_now-IsWellFormed :
      (e : ErrorState) (lg : Logger) (s : os.State)
      → IsWellFormed r l lg
      → IsWellFormed r l (open_now os tt_ sort (e, (lg, s))).1.1.0
  unfolding open_now cached_pid
  open_now-IsWellFormed e lg s h =
      take_run-IsWellFormed _ _ _ (record lg { timestamp = _; pid = _ }) h

  pub ensure_run_open-IsWellFormed :
      (e : ErrorState) (lg : Logger) (s : os.State)
      → IsWellFormed r l lg
      → IsWellFormed r l (ensure_run_open os tt_ sort (e, (lg, s))).1.1.0
  unfolding ensure_run_open
  ensure_run_open-IsWellFormed e lg s h =
      let P = λ (res : (Bool × OpenErr) × World os tt_ sort). IsWellFormed r l res.1.1.0 in
      if_both P (lg.init_state == 1) _ _ h
        (if_both P (lg.init_state == 2) _ _ h (open_now-IsWellFormed e lg s h))

  -- The logger stays well formed, and the descriptor, if it is one, is of an open file.
  abbrev pub IsOpened : (ℤ × OpenErr) × World os tt_ sort → Type 0
  IsOpened ((fd, oe), (e, (lg, s))) = IsWellFormed r l lg × (is_held lg.open_fds fd ≡ true)

  abbrev IsTaken : (ℤ × OpenErr) × Logger → Type 0
  IsTaken ((fd, oe), lg) = IsWellFormed r l lg × (is_held lg.open_fds fd ≡ true)

  take_file-IsTaken :
      (ms : Module) (o : Outcome ℤ) (lg : Logger)
      → IsWellFormed r l lg
      → IsTaken (take_file os tt_ sort ms o lg)
  take_file-IsTaken ms (good fd) lg h =
      let (grown, held) = add_fd-IsWellFormed fd lg h in
      (store_fd-IsWellFormed ms.name fd (add_fd fd lg) grown held, held)
  take_file-IsTaken ms (bad err) lg h = (store_fd-IsWellFormed ms.name gave_up lg h refl, refl)

  file_in_run-IsOpened :
      (ms : Module) (oe : OpenErr) (e : ErrorState) (lg : Logger) (s : os.State)
      → IsWellFormed r l lg
      → IsOpened (file_in_run os tt_ sort ms oe (e, (lg, s)))
  unfolding file_in_run cached_pid
  file_in_run-IsOpened ms oe e lg s h =
      let held : is_held lg.open_fds (if ltb_ℤ lg.shared_fd (pos 0) then gave_up else lg.shared_fd)
          ≡ true =
        if_both (λ fd. is_held lg.open_fds fd ≡ true) (ltb_ℤ lg.shared_fd (pos 0)) gave_up
          lg.shared_fd refl h.1.shared in
      if_both IsOpened lg.settings.file_per_module _ _
        (take_file-IsTaken ms _ (record lg { pid = _ }) h)
        (store_fd-IsWellFormed ms.name _ lg h held, held)

  -- `ensure_file_open` for a module whose descriptor is held.
  pub ensure_file_open-IsOpened :
      (ms : Module) (e : ErrorState) (lg : Logger) (s : os.State)
      → IsWellFormed r l lg
      → is_held lg.open_fds ms.file_fd ≡ true
      → IsOpened (ensure_file_open os tt_ sort ms (e, (lg, s)))
  unfolding ensure_file_open
  ensure_file_open-IsOpened ms e lg s h held =
      let ((ok, oe), (e', (lg', s'))) = ensure_run_open os tt_ sort (e, (lg, s)) in
      let h' = ensure_run_open-IsWellFormed e lg s h in
      if_both IsOpened (not (eqb_ℤ ms.file_fd not_opened)) _ _ (h, held)
        (if_both IsOpened ok _ _ (file_in_run-IsOpened ms oe e' lg' s' h')
          (store_fd-IsWellFormed ms.name gave_up lg' h' refl, refl))
