-- ===== src/RunDir/Reaped.antt =====
-- What `retention` may unlink.
use simple_logger.Base.{
  ℕ, suc, ◌≡◌, refl, ◌∙◌, sym, subst, Bool, true, false, Option, none, some, List, [], ◌∷◌, ◌++◌,
  Bytes, arith, codes, All, Bool-cases, inl, inr,
}
use simple_logger.Base.Int.{ℤ}
use simple_logger.Os.{Os}
use simple_logger.RunDir.{starts_with, ends_with}
use simple_logger.RunDir.{
  Run, stem_of, to_reap, reap_names, reap_listed, reap_run_files, probe_lock, probe_fd,
  probe_opened, find_runs, reap_from, retain, retention, mtime_of,
}

-- A test of the system's state, `kept`, which the calls of a probe keep, and which an unlink keeps of
-- a lock file that could be locked, or of a log of its run. `dead` holds of the name of each lock
-- file that a probe locks.
pub record Spares (os : Os) (log_dir : Bytes) : Type 0 where
  pub kept : os.State → Bool
  pub dead : Bytes → Bool
  pub open_old : (p : Bytes) (s : os.State) → kept s ≡ true → kept (os.open_old p s).1 ≡ true
  pub try_lock : (fd : ℤ) (s : os.State) → kept s ≡ true → kept (os.try_lock fd s).1 ≡ true
  pub unlock : (fd : ℤ) (s : os.State) → kept s ≡ true → kept (os.unlock fd s) ≡ true
  pub close : (fd : ℤ) (s : os.State) → kept s ≡ true → kept (os.close fd s) ≡ true
  pub probe :
      (n : Bytes) (fd : ℤ) (s : os.State)
      → kept s ≡ true
      → (os.open_old (log_dir ++ b'/' ∷ n) s).0 ≡ some fd
      → (os.try_lock fd (os.open_old (log_dir ++ b'/' ∷ n) s).1).0 ≡ true
      → dead n ≡ true
  pub unlink_lock :
      (n stem : Bytes) (s : os.State)
      → stem_of n ≡ some stem
      → dead n ≡ true
      → kept s ≡ true
      → kept (os.unlink (log_dir ++ b'/' ∷ n) s) ≡ true
  pub unlink_log :
      (n stem m : Bytes) (s : os.State)
      → stem_of n ≡ some stem
      → dead n ≡ true
      → starts_with stem m ≡ true
      → ends_with (codes ".log") m ≡ true
      → kept s ≡ true
      → kept (os.unlink (log_dir ++ b'/' ∷ m) s) ≡ true

module _ (os : Os) (log_dir : Bytes) (spares : Spares os log_dir) where
  open spares use {kept, dead}

  -- The lock of a run that is taken for dead is one that a probe locked.
  abbrev IsFound : Run → Type 0
  IsFound r =
      r.dead ≡ true
      → (n : Bytes) × (r.lock_path ≡ log_dir ++ b'/' ∷ n)
        × (stem_of n ≡ some r.stem)
        × (dead n ≡ true)

  probe_fd-kept :
      (fd : ℤ) (free : Bool) (s : os.State)
      → kept s ≡ true
      → (kept (probe_fd os fd free s).1 ≡ true) × ((probe_fd os fd free s).0 ≡ free)
  probe_fd-kept fd true s h = (spares.close fd (os.unlock fd s) (spares.unlock fd s h), refl)
  probe_fd-kept fd false s h = (spares.close fd s h, refl)

  probe_opened-kept :
      (n : Bytes) (o : Option ℤ) (s : os.State)
      → kept s ≡ true
      → ((fd : ℤ) → o ≡ some fd → (os.try_lock fd s).0 ≡ true → dead n ≡ true)
      → (kept (probe_opened os o s).1 ≡ true) × ((probe_opened os o s).0 ≡ true → dead n ≡ true)
  probe_opened-kept n none s h locks = (h, λ e. ground arith)
  probe_opened-kept n (some fd) s h locks =
      let probed =
        probe_fd-kept fd (os.try_lock fd s).0 (os.try_lock fd s).1 (spares.try_lock fd s h) in
      (probed.0, λ e. locks fd refl (sym probed.1 ∙ e))

  probe_lock-kept :
      (n : Bytes) (s : os.State)
      → kept s ≡ true
      → (kept (probe_lock os (log_dir ++ b'/' ∷ n) s).1 ≡ true)
        × ((probe_lock os (log_dir ++ b'/' ∷ n) s).0 ≡ true → dead n ≡ true)
  unfolding probe_lock
  probe_lock-kept n s h =
      probe_opened-kept n (os.open_old (log_dir ++ b'/' ∷ n) s).0
        (os.open_old (log_dir ++ b'/' ∷ n) s).1 (spares.open_old (log_dir ++ b'/' ∷ n) s h)
        (λ fd e locked. spares.probe n fd s h e locked)

  find_runs-none :
      (n : Bytes) (names : List Bytes) (s : os.State)
      → stem_of n ≡ none
      → find_runs os log_dir (n ∷ names) s ≡ find_runs os log_dir names s
  unfolding find_runs
  find_runs-none n names s e = rw (find_runs, e) refl

  -- The run of a lock that was probed.
  abbrev probed_run : Bytes → Bytes → os.State → Run
  probed_run n stem s =
      let path = log_dir ++ b'/' ∷ n in
      record {
        stem = stem;
        lock_path = path;
        mtime = mtime_of os path (probe_lock os path s).1;
        dead = (probe_lock os path s).0;
      }

  find_runs-some :
      (n stem : Bytes) (names : List Bytes) (s : os.State)
      → stem_of n ≡ some stem
      → find_runs os log_dir (n ∷ names) s ≡ (
        probed_run n stem s
            ∷ (find_runs os log_dir names (probe_lock os (log_dir ++ b'/' ∷ n) s).1).0,
        (find_runs os log_dir names (probe_lock os (log_dir ++ b'/' ∷ n) s).1).1,
      )
  unfolding find_runs
  find_runs-some n stem names s e = rw (find_runs, e) refl

  -- What the loop over the directory ends with.
  abbrev AreFound : List Run × os.State → Type 0
  AreFound (runs, s) = (kept s ≡ true) × All IsFound runs

  find_runs-cons-AreFound :
      (n : Bytes) (names : List Bytes) (s : os.State) (o : Option Bytes)
      → stem_of n ≡ o
      → kept s ≡ true
      → ((s' : os.State) → kept s' ≡ true → AreFound (find_runs os log_dir names s'))
      → AreFound (find_runs os log_dir (n ∷ names) s)
  find_runs-cons-AreFound n names s none e h again =
      subst AreFound (sym (find_runs-none n names s e)) (again s h)
  find_runs-cons-AreFound n names s (some stem) e h again =
      let probed = probe_lock-kept n s h in
      let rest = again (probe_lock os (log_dir ++ b'/' ∷ n) s).1 probed.0 in
      subst AreFound (sym (find_runs-some n stem names s e))
        (rest.0, ((λ locked. (n, refl, e, probed.1 locked)), rest.1))

  find_runs-AreFound :
      (names : List Bytes) (s : os.State) → kept s ≡ true → AreFound (find_runs os log_dir names s)
  unfolding find_runs
  find_runs-AreFound [] s h = (h, tt)
  find_runs-AreFound (n ∷ names) s h =
      find_runs-cons-AreFound n names s (stem_of n) refl h (λ s' h'. find_runs-AreFound names s' h')

  reap_names-kept :
      (n stem : Bytes) (names : List Bytes) (s : os.State)
      → stem_of n ≡ some stem
      → dead n ≡ true
      → kept s ≡ true
      → kept (reap_names os log_dir stem names s) ≡ true
  unfolding reap_names
  reap_names-kept n stem [] s e d h = h
  reap_names-kept n stem (m ∷ names) s e d h = ground (
    arith,
    spares.unlink_log n stem m s e d,
    reap_names-kept n stem names s e d,
    reap_names-kept n stem names (os.unlink (log_dir ++ b'/' ∷ m) s) e d,
  )

  reap_run_files-kept :
      (n stem : Bytes) (s : os.State)
      → stem_of n ≡ some stem
      → dead n ≡ true
      → kept s ≡ true
      → kept (reap_run_files os log_dir stem s) ≡ true
  unfolding reap_run_files
  reap_run_files-kept n stem s e d h = listed (os.list_dir log_dir s)
    where
      listed : (o : Option (List Bytes)) → kept (reap_listed os log_dir stem o s) ≡ true
      listed none = h
      listed (some names) = reap_names-kept n stem names s e d h

  to_reap-dead :
      (now retain_runs retain_days : ℤ) (i : ℕ) (r : Run)
      → to_reap now retain_runs retain_days i r ≡ true
      → r.dead ≡ true
  unfolding to_reap
  to_reap-dead now retain_runs retain_days i r e = ground arith

  reap_one-kept :
      (r : Run) (s : os.State)
      → IsFound r
      → r.dead ≡ true
      → kept s ≡ true
      → kept (os.unlink r.lock_path (reap_run_files os log_dir r.stem s)) ≡ true
  reap_one-kept r s found d h =
      let (n, at, e, locked) = found d in
      subst (λ p. kept (os.unlink p (reap_run_files os log_dir r.stem s)) ≡ true) (sym at)
        (spares.unlink_lock n r.stem (reap_run_files os log_dir r.stem s) e locked
          (reap_run_files-kept n r.stem s e locked h))

  reap_from-kept :
      (now retain_runs retain_days : ℤ) (i : ℕ) (runs : List Run) (s : os.State)
      → All IsFound runs
      → kept s ≡ true
      → kept (reap_from os log_dir now retain_runs retain_days i runs s) ≡ true
  unfolding reap_from
  reap_from-kept now retain_runs retain_days i [] s found h = h
  reap_from-kept now retain_runs retain_days i (r ∷ runs) s (of_run, found) h =
      elim (Bool-cases (to_reap now retain_runs retain_days i r)) [
        | inl e ↦
            let dead_run = to_reap-dead now retain_runs retain_days i r e in
            rw (reap_from, e)
              (reap_from-kept now retain_runs retain_days (suc i) runs
                (os.unlink r.lock_path (reap_run_files os log_dir r.stem s)) found
                (reap_one-kept r s of_run dead_run h))
        | inr e ↦
            rw (reap_from, e) (reap_from-kept now retain_runs retain_days (suc i) runs s found h)
      ]

  -- `retention` keeps whatever the unlink of a lock file that it locked in a probe keeps, and the
  -- unlink of a name of that lock's stem and ".log" in the same directory: nothing else is unlinked.
  -- The order in which the runs are sorted is open, and a probe's own calls are taken to keep it.
  pub retention-kept :
      (sort : List Run → List Run)
      → ((P : Run → Type 0) (runs : List Run) → All P runs → All P (sort runs))
      → (retain_runs retain_days : ℤ) (s : os.State) → kept s ≡ true
      → kept (retention os sort log_dir retain_runs retain_days s) ≡ true
  unfolding retention
  retention-kept sort sorts retain_runs retain_days s h =
      ground (arith, retained (os.list_dir log_dir s))
    where
      retained :
          (o : Option (List Bytes))
          → kept (retain os sort log_dir retain_runs retain_days o s) ≡ true
      retained none = h
      retained (some names) =
          let (kept_state, found) = find_runs-AreFound names s h in
          reap_from-kept (os.time (find_runs os log_dir names s).1) retain_runs retain_days 0
            (sort (find_runs os log_dir names s).0) (find_runs os log_dir names s).1
            (sorts IsFound (find_runs os log_dir names s).0 found) kept_state
