-- ===== src/RunDir/Calm.antt =====
-- Tests of the system's state along the steps of `open_run` of src/run_dir.cpp.
use simple_logger.Base.{
  ℕ, suc, ◌≡◌, Bool, true, false, Option, none, some, List, [], ◌∷◌, ◌++◌, Bytes, arith, ◌==◌,
}
use simple_logger.Base.Int.{ℤ}
use simple_logger.Errors.{ErrorState}
use simple_logger.Os.{Os}
use simple_logger.RunDir.{
  Run, mkdir_once, mkdir_last, mkdir_from, mkdir_p, move_one, move_all, move_listed, move_out,
  reap_names, reap_listed, reap_run_files, probe_lock, probe_fd, probe_opened, find_runs, reap_from,
  retain, retention, unique_dest, entries,
}

-- A test of the system's state that no call on names and locks, and no opening or closing, changes from
-- true.
pub record Calm (os : Os) (kept : os.State → Bool) : Type 0 where
  pub close : (fd : ℤ) (s : os.State) → kept s ≡ true → kept (os.close fd s) ≡ true
  pub mkdir : (p : Bytes) (s : os.State) → kept s ≡ true → kept (os.mkdir p s).1 ≡ true
  pub rename : (a b : Bytes) (s : os.State) → kept s ≡ true → kept (os.rename a b s).1 ≡ true
  pub unlink : (p : Bytes) (s : os.State) → kept s ≡ true → kept (os.unlink p s) ≡ true
  pub open_create : (p : Bytes) (s : os.State) → kept s ≡ true → kept (os.open_create p s).1 ≡ true
  pub open_dir : (p : Bytes) (s : os.State) → kept s ≡ true → kept (os.open_dir p s).1 ≡ true
  pub open_old : (p : Bytes) (s : os.State) → kept s ≡ true → kept (os.open_old p s).1 ≡ true
  pub open_append :
      (fd : ℤ) (p : Bytes) (s : os.State) → kept s ≡ true → kept (os.open_append fd p s).1 ≡ true
  pub lock : (fd : ℤ) (s : os.State) → kept s ≡ true → kept (os.lock fd s) ≡ true
  pub try_lock : (fd : ℤ) (s : os.State) → kept s ≡ true → kept (os.try_lock fd s).1 ≡ true
  pub unlock : (fd : ℤ) (s : os.State) → kept s ≡ true → kept (os.unlock fd s) ≡ true

module _ (os : Os) (kept : os.State → Bool) (calm : Calm os kept) where
  mkdir_once-kept : (p : Bytes) (s : os.State) → kept s ≡ true → kept (mkdir_once os p s).1 ≡ true
  unfolding mkdir_once
  mkdir_once-kept p s h = ground (arith, calm.mkdir p s)

  mkdir_last-kept :
      (p : Bytes) (slash : Bool) (s : os.State)
      → kept s ≡ true
      → kept (mkdir_last os p slash s).1 ≡ true
  mkdir_last-kept [] slash s h = h
  mkdir_last-kept (c ∷ p) true s h = h
  mkdir_last-kept (c ∷ p) false s h = mkdir_once-kept (c ∷ p) s h

  mkdir_from-kept :
      (p : Bytes) (slash : Bool) (rest : Bytes) (s : os.State)
      → kept s ≡ true
      → kept (mkdir_from os p slash rest s).1 ≡ true
  unfolding mkdir_from
  mkdir_from-kept p slash [] s h = mkdir_last-kept p slash s h
  mkdir_from-kept p slash (c ∷ rest) s h = ground (
    arith,
    mkdir_once-kept p s,
    mkdir_from-kept (p ++ c ∷ []) (c == b'/') rest s,
    mkdir_from-kept (p ++ c ∷ []) (c == b'/') rest (mkdir_once os p s).1,
  )

  pub mkdir_p-kept : (p : Bytes) (s : os.State) → kept s ≡ true → kept (mkdir_p os p s).1 ≡ true
  unfolding mkdir_p
  mkdir_p-kept p s h = mkdir_from-kept [] false p s h

  probe_fd-kept :
      (fd : ℤ) (free : Bool) (s : os.State) → kept s ≡ true → kept (probe_fd os fd free s).1 ≡ true
  probe_fd-kept fd true s h = calm.close fd (os.unlock fd s) (calm.unlock fd s h)
  probe_fd-kept fd false s h = calm.close fd s h

  probe_opened-kept :
      (o : Option ℤ) (s : os.State) → kept s ≡ true → kept (probe_opened os o s).1 ≡ true
  probe_opened-kept none s h = h
  probe_opened-kept (some fd) s h =
      probe_fd-kept fd (os.try_lock fd s).0 (os.try_lock fd s).1 (calm.try_lock fd s h)

  probe_lock-kept : (p : Bytes) (s : os.State) → kept s ≡ true → kept (probe_lock os p s).1 ≡ true
  unfolding probe_lock
  probe_lock-kept p s h =
      probe_opened-kept (os.open_old p s).0 (os.open_old p s).1 (calm.open_old p s h)

  find_runs-kept :
      (dir : Bytes) (names : List Bytes) (s : os.State)
      → kept s ≡ true
      → kept (find_runs os dir names s).1 ≡ true
  unfolding find_runs
  find_runs-kept dir [] s h = h
  find_runs-kept dir (n ∷ names) s h = ground (
    arith,
    probe_lock-kept (dir ++ b'/' ∷ n) s,
    find_runs-kept dir names s,
    find_runs-kept dir names (probe_lock os (dir ++ b'/' ∷ n) s).1,
  )

  reap_names-kept :
      (dir stem : Bytes) (names : List Bytes) (s : os.State)
      → kept s ≡ true
      → kept (reap_names os dir stem names s) ≡ true
  unfolding reap_names
  reap_names-kept dir stem [] s h = h
  reap_names-kept dir stem (n ∷ names) s h = ground (
    arith,
    reap_names-kept dir stem names s,
    reap_names-kept dir stem names (os.unlink (dir ++ b'/' ∷ n) s),
    calm.unlink (dir ++ b'/' ∷ n) s,
  )

  reap_listed-kept :
      (dir stem : Bytes) (o : Option (List Bytes)) (s : os.State)
      → kept s ≡ true
      → kept (reap_listed os dir stem o s) ≡ true
  reap_listed-kept dir stem none s h = h
  reap_listed-kept dir stem (some names) s h = reap_names-kept dir stem names s h

  reap_run_files-kept :
      (dir stem : Bytes) (s : os.State) → kept s ≡ true → kept (reap_run_files os dir stem s) ≡ true
  unfolding reap_run_files
  reap_run_files-kept dir stem s h = reap_listed-kept dir stem (os.list_dir dir s) s h

  reap_from-kept :
      (dir : Bytes) (now runs days : ℤ) (i : ℕ) (rs : List Run) (s : os.State)
      → kept s ≡ true
      → kept (reap_from os dir now runs days i rs s) ≡ true
  unfolding reap_from
  reap_from-kept dir now runs days i [] s h = h
  reap_from-kept dir now runs days i (r ∷ rs) s h = ground (
    arith,
    reap_from-kept dir now runs days (suc i) rs s,
    reap_from-kept dir now runs days (suc i) rs
        (os.unlink r.lock_path (reap_run_files os dir r.stem s)),
    calm.unlink r.lock_path (reap_run_files os dir r.stem s),
    reap_run_files-kept dir r.stem s,
  )

  retain-kept :
      (sort : List Run → List Run) (dir : Bytes) (runs days : ℤ) (o : Option (List Bytes))
      (s : os.State)
      → kept s ≡ true
      → kept (retain os sort dir runs days o s) ≡ true
  retain-kept sort dir runs days none s h = h
  retain-kept sort dir runs days (some names) s h =
      let found = find_runs os dir names s in
      reap_from-kept dir (os.time found.1) runs days 0 (sort found.0) found.1
        (find_runs-kept dir names s h)

  pub retention-calm :
      (sort : List Run → List Run) (dir : Bytes) (runs days : ℤ) (s : os.State)
      → kept s ≡ true
      → kept (retention os sort dir runs days s) ≡ true
  unfolding retention
  retention-calm sort dir runs days s h =
      ground (arith, retain-kept sort dir runs days (os.list_dir dir s) s)

  move_one-kept :
      (latest dir n : Bytes) (e : ErrorState) (s : os.State)
      → kept s ≡ true
      → kept (move_one os latest dir n (e, s)).1 ≡ true
  unfolding move_one
  move_one-kept latest dir n e s h =
      ground (arith, calm.rename (latest ++ b'/' ∷ n) (unique_dest os dir n s) s)

  move_all-kept :
      (latest dir : Bytes) (names : List Bytes) (e : ErrorState) (s : os.State)
      → kept s ≡ true
      → kept (move_all os latest dir names (e, s)).1 ≡ true
  unfolding move_all
  move_all-kept latest dir [] e s h = h
  move_all-kept latest dir (n ∷ names) e s h =
      let next = move_one os latest dir n (e, s) in
      move_all-kept latest dir names next.0 next.1 (move_one-kept latest dir n e s h)

  move_listed-kept :
      (latest dir : Bytes) (o : Option (List Bytes)) (e : ErrorState) (s : os.State)
      → kept s ≡ true
      → kept (move_listed os latest dir o (e, s)).1 ≡ true
  move_listed-kept latest dir none e s h = h
  move_listed-kept latest dir (some names) e s h = move_all-kept latest dir (entries names) e s h

  pub move_out-kept :
      (latest dir : Bytes) (e : ErrorState) (s : os.State)
      → kept s ≡ true
      → kept (move_out os latest dir (e, s)).1 ≡ true
  unfolding move_out
  move_out-kept latest dir e s h = move_listed-kept latest dir (os.list_dir latest s) e s h
