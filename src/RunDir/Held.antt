-- ===== src/RunDir/Held.antt =====
-- The descriptors on every way through `open_run` of src/run_dir.cpp.
use simple_logger.Base.{
  ℕ, ◌≡◌, refl, ◌∙◌, Bool, false, Option, none, some, List, [], ◌∷◌, ◌++◌, Bytes, codes,
}
use simple_logger.Base.Int.{ℤ, pos, negsuc}
use simple_logger.Errors.{Errc, ErrorState, record_error}
use simple_logger.Os.{Os, Outcome, good, bad}
use simple_logger.RunDir.{
  Run, RunDir, no_run, k_struct_lock, mkdir_p, move_out, retention, open_log_file,
}
use simple_logger.RunDir.Descriptors.{
  Opens, Table, mkdir_p-opened, move_out-opened, retention-opened,
}
use simple_logger.RunDir.Leaks.{
  Adds, Adds-same, Adds-open, Adds-swap, Adds-swap_second, keep_fd, held, IsLock, lock_list,
  close_if-Adds, struct_closed, give_up-Adds, Honest, open_first-Adds,
}
use simple_logger.RunDir.Open.{
  run_lock_path, fd_or, make_second, make_dirs, own_lock, take_run_lock, first_opened, open_first,
  make_tag_dir, run_dir, finish_run, enter_opened, enter_made, lock_opened, lock_run, run_made,
  open_run,
}

module _ (os : Os) (table : Table os) where
  open table use {opened}

  first_opened-fields :
      (o : Outcome ℤ) (rd : RunDir)
      → ((first_opened os o rd).dir_fd ≡ rd.dir_fd)
        × ((first_opened os o rd).run_lock_fd ≡ rd.run_lock_fd)
  first_opened-fields (good fd) rd = (refl, refl)
  first_opened-fields (bad e) rd = (refl, refl)

  open_first-fields :
      (dir_fd : ℤ) (name : Bytes) (rd : RunDir) (s : os.State)
      → ((open_first os dir_fd name rd s).0.dir_fd ≡ rd.dir_fd)
        × ((open_first os dir_fd name rd s).0.run_lock_fd ≡ rd.run_lock_fd)
  unfolding open_first
  open_first-fields dir_fd [] rd s = (refl, refl)
  open_first-fields dir_fd (c ∷ name) rd s =
      first_opened-fields (open_log_file os dir_fd (c ∷ name) s).0 rd

  -- The structure lock is closed below the first file and the directory.
  close_under :
      (first slfd : ℤ) (d : ℕ) (fds : List ℤ) (before : ℤ → Bool) (s : os.State)
      → Adds (keep_fd first (pos d ∷ slfd ∷ fds)) before (opened s)
      → Adds (keep_fd first (pos d ∷ fds)) before (opened (os.close slfd (os.unlock slfd s)))
  close_under (negsuc n) slfd d fds before s a =
      struct_closed os table slfd (pos d ∷ fds) before s
        (Adds-swap (pos d) slfd fds before (opened s) a)
  close_under (pos n) slfd d fds before s a =
      struct_closed os table slfd (pos n ∷ pos d ∷ fds) before s (
        Adds-swap (pos n) slfd (pos d ∷ fds) before (opened s)
          (Adds-swap_second (pos n) (pos d) slfd fds before (opened s) a))

  module _ (sort : List Run → List Run) (log_dir tag : Bytes) (retain_runs retain_days : ℤ)
      (first_file : Bytes) where
    finish_run-Honest :
        (slfd : ℤ) (d : ℕ) (o : Option ℤ) (before : ℤ → Bool) (rd : RunDir) (s : os.State)
        → rd.first_fd ≡ negsuc 0
        → rd.run_lock_fd ≡ fd_or o
        → Adds (pos d ∷ slfd ∷ lock_list o) before (opened s)
        → Honest os table before
            (finish_run os sort log_dir tag retain_runs retain_days first_file slfd (pos d) rd s).0
            (finish_run os sort log_dir tag retain_runs retain_days first_file slfd (pos d) rd s).1
    unfolding finish_run
    finish_run-Honest slfd d o before rd s none_yet lock a =
        let rd0 = record rd {
          dir_fd = pos d;
          dir_path = run_dir os sort log_dir tag retain_runs retain_days first_file;
        } in
        let got = open_first os (pos d) first_file rd0 s in
        let fields = open_first-fields (pos d) first_file rd0 s in
        let swept = retention os sort log_dir retain_runs retain_days got.1 in
        let grown =
          Adds-same (keep_fd got.0.first_fd (pos d ∷ slfd ∷ lock_list o)) before (opened got.1)
            (opened swept)
            (open_first-Adds os table (pos d) first_file (pos d ∷ slfd ∷ lock_list o) before rd0 s
              none_yet a)
            (retention-opened os table sort log_dir retain_runs retain_days got.1) in
        (
          rw (fields.0, fields.1 ∙ lock)
              (close_under got.0.first_fd slfd d (lock_list o) before swept grown),
          λ e. cc,
        )

    enter_opened-Honest :
        (slfd : ℤ) (o : Option ℤ) (before : ℤ → Bool) (rd : RunDir) (dir : Outcome ℤ)
        (middle : ℤ → Bool) (s : os.State)
        → rd.first_fd ≡ negsuc 0
        → rd.dir_fd ≡ negsuc 0
        → rd.run_lock_fd ≡ fd_or o
        → rd.ok ≡ false
        → IsLock o
        → Adds (slfd ∷ lock_list o) before middle
        → Opens middle dir (opened s)
        → Honest os table before
            (enter_opened os sort log_dir tag retain_runs retain_days first_file slfd o rd dir s).0
            (enter_opened os sort log_dir tag retain_runs retain_days first_file slfd o rd dir s).1
    enter_opened-Honest slfd o before rd (bad e) middle s none_yet no_dir lock not_ok h a k =
        rw (none_yet, no_dir)
          (
            give_up-Adds os table slfd o before s h
                (Adds-same (slfd ∷ lock_list o) before middle (opened s) a k),
            λ z. refl,
          )
    enter_opened-Honest slfd o before rd (good (negsuc n)) middle s none_yet no_dir lock not_ok h a
          k =
        absurd k
    enter_opened-Honest slfd o before rd (good (pos n)) middle s none_yet no_dir lock not_ok h a k =
        finish_run-Honest slfd n o before rd s none_yet lock
          (Adds-open (slfd ∷ lock_list o) before middle (opened s) n a k)

    enter_made-Honest :
        (slfd : ℤ) (o : Option ℤ) (before : ℤ → Bool) (made : Option ℤ) (s : os.State)
        → IsLock o
        → Adds (slfd ∷ lock_list o) before (opened s)
        → let rd = record no_run { run_lock_fd = fd_or o } in
          Honest os table before
            (enter_made os sort log_dir tag retain_runs retain_days first_file slfd o rd made s).0
            (enter_made os sort log_dir tag retain_runs retain_days first_file slfd o rd made s).1
    enter_made-Honest slfd o before (some e) s h a =
        (give_up-Adds os table slfd o before s h a, λ z. refl)
    enter_made-Honest slfd o before none s h a =
        let dir = run_dir os sort log_dir tag retain_runs retain_days first_file in
        enter_opened-Honest slfd o before (record no_run { run_lock_fd = fd_or o })
          (os.open_dir dir s).0 (opened s) (os.open_dir dir s).1 refl refl refl refl h a
          (table.open_dir dir s)

    make_tag_dir-opened :
        (dir label : Bytes) (s : os.State) (f : ℤ)
        → opened (make_tag_dir os dir label s).1 f ≡ opened s f
    make_tag_dir-opened dir [] s f = refl
    make_tag_dir-opened dir (c ∷ label) s f = mkdir_p-opened os table dir s f

    lock_opened-Honest :
        (o : Option ℤ) (before : ℤ → Bool) (lock : Outcome ℤ) (middle : ℤ → Bool) (e : ErrorState)
        (s : os.State)
        → IsLock o
        → Adds (lock_list o) before middle
        → Opens middle lock (opened s)
        → let rd = record no_run { run_lock_fd = fd_or o } in
          Honest os table before
            (lock_opened os sort log_dir tag retain_runs retain_days first_file o rd lock (e, s)).0
            (lock_opened os sort log_dir tag retain_runs retain_days first_file o rd lock
              (e, s)).1.1
    lock_opened-Honest o before (bad err) middle e s h a k = (
      close_if-Adds os table o before s h (Adds-same (lock_list o) before middle (opened s) a k),
      λ z. refl,
    )
    lock_opened-Honest o before (good (negsuc n)) middle e s h a k = absurd k
    lock_opened-Honest o before (good (pos n)) middle e s h a k =
        let dir = run_dir os sort log_dir tag retain_runs retain_days first_file in
        let locked = os.lock (pos n) s in
        let moved = move_out os (log_dir ++ codes "/latest") log_dir (e, locked) in
        let made = make_tag_dir os dir tag moved.1 in
        enter_made-Honest (pos n) o before made.0 made.1 h (
          Adds-same (pos n ∷ lock_list o) before (opened s) _
            (Adds-open (lock_list o) before middle (opened s) n a k)
            (λ f.
              make_tag_dir-opened dir tag moved.1 f
              ∙ move_out-opened os table (log_dir ++ codes "/latest") log_dir e locked f
              ∙ table.lock (pos n) f s))

    lock_run-Honest :
        (o : Option ℤ) (before : ℤ → Bool) (e : ErrorState) (s : os.State)
        → IsLock o
        → Adds (lock_list o) before (opened s)
        → Honest os table before
            (lock_run os sort log_dir tag retain_runs retain_days first_file o (e, s)).0
            (lock_run os sort log_dir tag retain_runs retain_days first_file o (e, s)).1.1
    unfolding lock_run
    lock_run-Honest o before e s h a =
        let path = log_dir ++ k_struct_lock in
        lock_opened-Honest o before (os.open_create path s).0 (opened s) e (os.open_create path s).1
          h a (table.open_create path s)

    own_lock-Honest :
        (path : Bytes) (lock : Outcome ℤ) (before middle : ℤ → Bool) (e : ErrorState) (s : os.State)
        → ((f : ℤ) → middle f ≡ before f)
        → Opens middle lock (opened s)
        → let got = own_lock os path lock (e, s) in
          Honest os table before
            (lock_run os sort log_dir tag retain_runs retain_days first_file got.0 got.1).0
            (lock_run os sort log_dir tag retain_runs retain_days first_file got.0 got.1).1.1
    own_lock-Honest path (bad err) before middle e s same k =
        lock_run-Honest none before (record_error Errc.run_lock err path e) s tt (λ f. k f ∙ same f)
    own_lock-Honest path (good (negsuc n)) before middle e s same k = absurd k
    own_lock-Honest path (good (pos n)) before middle e s same k =
        lock_run-Honest (some (pos n)) before e (os.try_lock (pos n) s).1 tt (
          Adds-same (pos n ∷ []) before (opened s) _
            (Adds-open [] before middle (opened s) n same k) (λ f. table.try_lock (pos n) f s))

    run_made-Honest :
        (pid : ℤ) (timestamp : Bytes) (made : Option ℤ) (before : ℤ → Bool) (e : ErrorState)
        (s : os.State)
        → ((f : ℤ) → opened s f ≡ before f)
        → Honest os table before
            (run_made os sort log_dir tag retain_runs retain_days first_file pid timestamp made
              (e, s)).0
            (run_made os sort log_dir tag retain_runs retain_days first_file pid timestamp made
              (e, s)).1.1
    unfolding take_run_lock
    run_made-Honest pid timestamp (some err) before e s same = (same, λ z. refl)
    run_made-Honest pid timestamp none before e s same =
        let path = run_lock_path log_dir pid timestamp in
        own_lock-Honest path (os.open_create path s).0 before (opened s) e (os.open_create path s).1
          same (table.open_create path s)

    make_second-opened :
        (p : Bytes) (made : Option ℤ) (s : os.State) (f : ℤ)
        → opened (make_second os p made s).1 f ≡ opened s f
    make_second-opened p (some e) s f = refl
    make_second-opened p none s f = mkdir_p-opened os table p s f

    -- However `open_run` ends, the descriptors that it opened and left open are exactly those that its
    -- result holds, each opened by it and all different; and if it failed, it holds none.
    pub open_run-held :
        (pid : ℤ) (timestamp : Bytes) (e : ErrorState) (s : os.State)
        → let result =
            open_run os sort log_dir tag retain_runs retain_days pid timestamp first_file (e, s) in
          Adds (held result.0) (opened s) (opened result.1.1)
          × (result.0.ok ≡ false → held result.0 ≡ [])
    unfolding open_run make_dirs
    open_run-held pid timestamp e s =
        let first = mkdir_p os log_dir s in
        let second = make_second os (log_dir ++ codes "/latest") first.0 first.1 in
        run_made-Honest pid timestamp second.0 (opened s) e second.1 (λ f.
          make_second-opened (log_dir ++ codes "/latest") first.0 first.1 f
          ∙ mkdir_p-opened os table log_dir s f)
