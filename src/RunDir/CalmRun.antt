-- ===== src/RunDir/CalmRun.antt =====
-- Tests of the system's state along the whole of `open_run` of src/run_dir.cpp.
use simple_logger.Base.{◌≡◌, Bool, true, Option, none, some, List, [], ◌∷◌, Bytes}
use simple_logger.Base.Int.{ℤ}
use simple_logger.Errors.{ErrorState}
use simple_logger.Os.{Os, Outcome, good, bad}
use simple_logger.RunDir.{Run, RunDir, mkdir_p, open_log_file}
use simple_logger.RunDir.Open.{
  make_second, make_dirs, close_if, give_up, own_lock, take_run_lock, open_first, make_tag_dir,
  finish_run, enter_opened, enter_made, lock_opened, lock_run, run_made, open_run,
}
use simple_logger.RunDir.Calm.{Calm, mkdir_p-kept, move_out-kept, retention-calm}

module _ (os : Os) (kept : os.State → Bool) (calm : Calm os kept) where
  make_second-kept :
      (dir : Bytes) (o : Option ℤ) (s : os.State)
      → kept s ≡ true
      → kept (make_second os dir o s).1 ≡ true
  make_second-kept dir none s h = mkdir_p-kept os kept calm dir s h
  make_second-kept dir (some e) s h = h

  make_dirs-kept :
      (log_dir dir : Bytes) (s : os.State)
      → kept s ≡ true
      → kept (make_dirs os log_dir dir s).1 ≡ true
  unfolding make_dirs
  make_dirs-kept log_dir dir s h =
      let (done, s') = mkdir_p os log_dir s in
      make_second-kept dir done s' (mkdir_p-kept os kept calm log_dir s h)

  close_if-kept : (o : Option ℤ) (s : os.State) → kept s ≡ true → kept (close_if os o s) ≡ true
  close_if-kept none s h = h
  close_if-kept (some fd) s h = calm.close fd s h

  unlocked : (fd : ℤ) (s : os.State) → kept s ≡ true → kept (os.close fd (os.unlock fd s)) ≡ true
  unlocked fd s h = calm.close fd (os.unlock fd s) (calm.unlock fd s h)

  give_up-kept :
      (slfd : ℤ) (o : Option ℤ) (s : os.State) → kept s ≡ true → kept (give_up os slfd o s) ≡ true
  give_up-kept slfd o s h = close_if-kept o _ (unlocked slfd s h)

  own_lock-kept :
      (path : Bytes) (o : Outcome ℤ) (e : ErrorState) (s : os.State)
      → kept s ≡ true
      → kept (own_lock os path o (e, s)).1.1 ≡ true
  own_lock-kept path (good fd) e s h = calm.try_lock fd s h
  own_lock-kept path (bad err) e s h = h

  take_run_lock-kept :
      (path : Bytes) (e : ErrorState) (s : os.State)
      → kept s ≡ true
      → kept (take_run_lock os path (e, s)).1.1 ≡ true
  unfolding take_run_lock
  take_run_lock-kept path e s h =
      own_lock-kept path (os.open_create path s).0 e (os.open_create path s).1
        (calm.open_create path s h)

  pub open_log_file-kept :
      (dir_fd : ℤ) (name : Bytes) (s : os.State)
      → kept s ≡ true
      → kept (open_log_file os dir_fd name s).1 ≡ true
  unfolding open_log_file
  open_log_file-kept dir_fd name s h = calm.open_append dir_fd name s h

  open_first-kept :
      (dir_fd : ℤ) (name : Bytes) (rd : RunDir) (s : os.State)
      → kept s ≡ true
      → kept (open_first os dir_fd name rd s).1 ≡ true
  unfolding open_first
  open_first-kept dir_fd [] rd s h = h
  open_first-kept dir_fd (c ∷ name) rd s h = open_log_file-kept dir_fd (c ∷ name) s h

  make_tag_dir-kept :
      (dir tag : Bytes) (s : os.State) → kept s ≡ true → kept (make_tag_dir os dir tag s).1 ≡ true
  make_tag_dir-kept dir [] s h = h
  make_tag_dir-kept dir (c ∷ tag) s h = mkdir_p-kept os kept calm dir s h

  module _ (sort : List Run → List Run) (log_dir tag : Bytes) (retain_runs retain_days : ℤ)
      (first_file : Bytes) where
    finish_run-kept :
        (slfd dir_fd : ℤ) (rd : RunDir) (s : os.State)
        → kept s ≡ true
        → kept
            (finish_run os sort log_dir tag retain_runs retain_days first_file slfd dir_fd rd s).1
          ≡ true
    unfolding finish_run
    finish_run-kept slfd dir_fd rd s h = unlocked slfd _ (
        retention-calm os kept calm sort log_dir retain_runs retain_days _
          (open_first-kept dir_fd first_file _ s h))

    enter_opened-kept :
        (slfd : ℤ) (o : Option ℤ) (rd : RunDir) (dir : Outcome ℤ) (s : os.State)
        → kept s ≡ true
        → kept
            (enter_opened os sort log_dir tag retain_runs retain_days first_file slfd o rd dir s).1
          ≡ true
    enter_opened-kept slfd o rd (bad e) s h = give_up-kept slfd o s h
    enter_opened-kept slfd o rd (good dir_fd) s h = finish_run-kept slfd dir_fd rd s h

    enter_made-kept :
        (slfd : ℤ) (o : Option ℤ) (rd : RunDir) (made : Option ℤ) (s : os.State)
        → kept s ≡ true
        → kept
            (enter_made os sort log_dir tag retain_runs retain_days first_file slfd o rd made s).1
          ≡ true
    enter_made-kept slfd o rd (some e) s h = give_up-kept slfd o s h
    enter_made-kept slfd o rd none s h = enter_opened-kept slfd o rd _ _ (calm.open_dir _ s h)

    lock_opened-kept :
        (o : Option ℤ) (rd : RunDir) (opened : Outcome ℤ) (e : ErrorState) (s : os.State)
        → kept s ≡ true
        → kept
            (lock_opened os sort log_dir tag retain_runs retain_days first_file o rd opened
              (e, s)).1.1
          ≡ true
    lock_opened-kept o rd (bad err) e s h = close_if-kept o s h
    lock_opened-kept o rd (good slfd) e s h =
        enter_made-kept slfd o rd _ _ (
          make_tag_dir-kept _ tag _ (move_out-kept os kept calm _ log_dir e _ (calm.lock slfd s h)))

    lock_run-kept :
        (o : Option ℤ) (e : ErrorState) (s : os.State)
        → kept s ≡ true
        → kept (lock_run os sort log_dir tag retain_runs retain_days first_file o (e, s)).1.1 ≡ true
    unfolding lock_run
    lock_run-kept o e s h = lock_opened-kept o _ _ e _ (calm.open_create _ s h)

    run_made-kept :
        (pid : ℤ) (timestamp : Bytes) (o : Option ℤ) (e : ErrorState) (s : os.State)
        → kept s ≡ true
        → kept
            (run_made os sort log_dir tag retain_runs retain_days first_file pid timestamp o
              (e, s)).1.1
          ≡ true
    run_made-kept pid timestamp (some err) e s h = h
    run_made-kept pid timestamp none e s h = lock_run-kept _ _ _ (take_run_lock-kept _ e s h)

  pub open_run-kept :
      (sort : List Run → List Run) (log_dir tag : Bytes) (retain_runs retain_days pid : ℤ)
      (timestamp first_file : Bytes) (e : ErrorState) (s : os.State)
      → kept s ≡ true
      → kept
          (open_run os sort log_dir tag retain_runs retain_days pid timestamp first_file (e, s)).1.1
        ≡ true
  unfolding open_run
  open_run-kept sort log_dir tag retain_runs retain_days pid timestamp first_file e s h =
      run_made-kept sort log_dir tag retain_runs retain_days first_file pid timestamp _ e _
        (make_dirs-kept log_dir _ s h)
