-- ===== src/RunDir/Descriptors.antt =====
-- Which descriptors `open_run` leaves open.
use simple_logger.Base.{
  ℕ, suc, ◌≡◌, refl, ◌∙◌, Bool, true, false, Option, none, some, List, [], ◌∷◌, ◌++◌, Bytes, arith,
  if◌then◌else◌, ◌==◌,
}
use simple_logger.Base.Int.{ℤ, pos, negsuc, eqb_ℤ, eqb_ℤ_iff}
use simple_logger.Errors.{ErrorState}
use simple_logger.Os.{Os, Outcome, good, bad}
use simple_logger.RunDir.{
  Run, mkdir_once, mkdir_last, mkdir_from, mkdir_p, move_one, move_all, move_listed, move_out,
  reap_names, reap_listed, reap_run_files, probe_lock, probe_fd, probe_opened, find_runs, reap_from,
  retain, retention, unique_dest, entries,
}

-- What a call that may open a descriptor does to the table: `before` and `after` are the table's
-- tests. A new descriptor is not negative and was not open.
abbrev pub Opens : (ℤ → Bool) → Outcome ℤ → (ℤ → Bool) → Type 0
Opens before (bad e) after = (f : ℤ) → after f ≡ before f
Opens before (good (negsuc n)) after = ⊥
Opens before (good (pos n)) after =
    (before (pos n) ≡ false) × ((f : ℤ) → after f ≡ (if eqb_ℤ f (pos n) then true else before f))

abbrev pub of_option : Option ℤ → Outcome ℤ
of_option none = bad (pos 2)
of_option (some fd) = good fd

-- What the system documents of its calls and the process's table of open descriptors.
pub record Table (os : Os) : Type 0 where
  pub opened : os.State → ℤ → Bool
  pub open_create :
      (p : Bytes) (s : os.State)
      → Opens (opened s) (os.open_create p s).0 (opened (os.open_create p s).1)
  pub open_dir :
      (p : Bytes) (s : os.State) → Opens (opened s) (os.open_dir p s).0 (opened (os.open_dir p s).1)
  pub open_append :
      (fd : ℤ) (p : Bytes) (s : os.State)
      → Opens (opened s) (os.open_append fd p s).0 (opened (os.open_append fd p s).1)
  pub open_old :
      (p : Bytes) (s : os.State)
      → Opens (opened s) (of_option (os.open_old p s).0) (opened (os.open_old p s).1)
  pub close :
      (fd f : ℤ) (s : os.State)
      → opened (os.close fd s) f ≡ (if eqb_ℤ f fd then false else opened s f)
  pub mkdir : (p : Bytes) (f : ℤ) (s : os.State) → opened (os.mkdir p s).1 f ≡ opened s f
  pub rename : (a b : Bytes) (f : ℤ) (s : os.State) → opened (os.rename a b s).1 f ≡ opened s f
  pub unlink : (p : Bytes) (f : ℤ) (s : os.State) → opened (os.unlink p s) f ≡ opened s f
  pub lock : (fd f : ℤ) (s : os.State) → opened (os.lock fd s) f ≡ opened s f
  pub try_lock : (fd f : ℤ) (s : os.State) → opened (os.try_lock fd s).1 f ≡ opened s f
  pub unlock : (fd f : ℤ) (s : os.State) → opened (os.unlock fd s) f ≡ opened s f

module _ (os : Os) (table : Table os) where
  open table use {opened}

  pub mkdir_once-opened :
      (p : Bytes) (s : os.State) (f : ℤ) → opened (mkdir_once os p s).1 f ≡ opened s f
  unfolding mkdir_once
  mkdir_once-opened p s f = ground (arith, table.mkdir p f s)

  mkdir_last-opened :
      (p : Bytes) (slash : Bool) (s : os.State) (f : ℤ)
      → opened (mkdir_last os p slash s).1 f ≡ opened s f
  mkdir_last-opened [] slash s f = refl
  mkdir_last-opened (c ∷ p) true s f = refl
  mkdir_last-opened (c ∷ p) false s f = mkdir_once-opened (c ∷ p) s f

  mkdir_from-opened :
      (p : Bytes) (slash : Bool) (rest : Bytes) (s : os.State) (f : ℤ)
      → opened (mkdir_from os p slash rest s).1 f ≡ opened s f
  unfolding mkdir_from
  mkdir_from-opened p slash [] s f = mkdir_last-opened p slash s f
  mkdir_from-opened p slash (c ∷ rest) s f = ground (
    arith,
    mkdir_once-opened p s f,
    mkdir_from-opened (p ++ c ∷ []) (c == b'/') rest s f,
    mkdir_from-opened (p ++ c ∷ []) (c == b'/') rest (mkdir_once os p s).1 f,
  )

  probe_fd-opened :
      (fd : ℤ) (free : Bool) (s : os.State) (f : ℤ)
      → opened (probe_fd os fd free s).1 f ≡ (if eqb_ℤ f fd then false else opened s f)
  probe_fd-opened fd true s f =
      ground (arith, table.close fd f (os.unlock fd s), table.unlock fd f s)
  probe_fd-opened fd false s f = table.close fd f s

  -- A descriptor that was opened and closed again leaves the table as it was.
  closed_again :
      (before after : ℤ → Bool) (n : ℕ) (f : ℤ)
      → Opens before (good (pos n)) after
      → (if eqb_ℤ f (pos n) then false else after f) ≡ before f
  closed_again before after n f (fresh, grown) = ground (arith, grown f, eqb_ℤ_iff f (pos n))

  probe_opened-opened :
      (before : ℤ → Bool) (o : Option ℤ) (s : os.State) (f : ℤ)
      → Opens before (of_option o) (opened s)
      → opened (probe_opened os o s).1 f ≡ before f
  probe_opened-opened before none s f h = h f
  probe_opened-opened before (some (negsuc n)) s f h = absurd h
  probe_opened-opened before (some (pos n)) s f h = ground (
    arith,
    probe_fd-opened (pos n) (os.try_lock (pos n) s).0 (os.try_lock (pos n) s).1 f,
    table.try_lock (pos n) f s,
    closed_again before (opened s) n f h,
  )

  probe_lock-opened :
      (p : Bytes) (s : os.State) (f : ℤ) → opened (probe_lock os p s).1 f ≡ opened s f
  unfolding probe_lock
  probe_lock-opened p s f =
      probe_opened-opened (opened s) (os.open_old p s).0 (os.open_old p s).1 f (table.open_old p s)

  find_runs-opened :
      (dir : Bytes) (names : List Bytes) (s : os.State) (f : ℤ)
      → opened (find_runs os dir names s).1 f ≡ opened s f
  unfolding find_runs
  find_runs-opened dir [] s f = refl
  find_runs-opened dir (n ∷ names) s f = ground (
    arith,
    probe_lock-opened (dir ++ b'/' ∷ n) s f,
    find_runs-opened dir names s f,
    find_runs-opened dir names (probe_lock os (dir ++ b'/' ∷ n) s).1 f,
  )

  reap_names-opened :
      (dir stem : Bytes) (names : List Bytes) (s : os.State) (f : ℤ)
      → opened (reap_names os dir stem names s) f ≡ opened s f
  unfolding reap_names
  reap_names-opened dir stem [] s f = refl
  reap_names-opened dir stem (n ∷ names) s f = ground (
    arith,
    reap_names-opened dir stem names s f,
    reap_names-opened dir stem names (os.unlink (dir ++ b'/' ∷ n) s) f,
    table.unlink (dir ++ b'/' ∷ n) f s,
  )

  reap_listed-opened :
      (dir stem : Bytes) (o : Option (List Bytes)) (s : os.State) (f : ℤ)
      → opened (reap_listed os dir stem o s) f ≡ opened s f
  reap_listed-opened dir stem none s f = refl
  reap_listed-opened dir stem (some names) s f = reap_names-opened dir stem names s f

  reap_run_files-opened :
      (dir stem : Bytes) (s : os.State) (f : ℤ)
      → opened (reap_run_files os dir stem s) f ≡ opened s f
  unfolding reap_run_files
  reap_run_files-opened dir stem s f = reap_listed-opened dir stem (os.list_dir dir s) s f

  reap_from-opened :
      (dir : Bytes) (now runs days : ℤ) (i : ℕ) (rs : List Run) (s : os.State) (f : ℤ)
      → opened (reap_from os dir now runs days i rs s) f ≡ opened s f
  unfolding reap_from
  reap_from-opened dir now runs days i [] s f = refl
  reap_from-opened dir now runs days i (r ∷ rs) s f =
      let s' = os.unlink r.lock_path (reap_run_files os dir r.stem s) in
      ground (
        arith,
        reap_from-opened dir now runs days (suc i) rs s f,
        reap_from-opened dir now runs days (suc i) rs s' f,
        table.unlink r.lock_path f (reap_run_files os dir r.stem s),
        reap_run_files-opened dir r.stem s f,
      )

  retain-opened :
      (sort : List Run → List Run) (dir : Bytes) (runs days : ℤ) (o : Option (List Bytes))
      (s : os.State) (f : ℤ)
      → opened (retain os sort dir runs days o s) f ≡ opened s f
  retain-opened sort dir runs days none s f = refl
  retain-opened sort dir runs days (some names) s f =
      let found = find_runs os dir names s in
      reap_from-opened dir (os.time found.1) runs days 0 (sort found.0) found.1 f
      ∙ find_runs-opened dir names s f

  pub retention-opened :
      (sort : List Run → List Run) (dir : Bytes) (runs days : ℤ) (s : os.State) (f : ℤ)
      → opened (retention os sort dir runs days s) f ≡ opened s f
  unfolding retention
  retention-opened sort dir runs days s f =
      ground (arith, retain-opened sort dir runs days (os.list_dir dir s) s f)

  move_one-opened :
      (latest dir n : Bytes) (e : ErrorState) (s : os.State) (f : ℤ)
      → opened (move_one os latest dir n (e, s)).1 f ≡ opened s f
  unfolding move_one
  move_one-opened latest dir n e s f =
      ground (arith, table.rename (latest ++ b'/' ∷ n) (unique_dest os dir n s) f s)

  move_all-opened :
      (latest dir : Bytes) (names : List Bytes) (e : ErrorState) (s : os.State) (f : ℤ)
      → opened (move_all os latest dir names (e, s)).1 f ≡ opened s f
  unfolding move_all
  move_all-opened latest dir [] e s f = refl
  move_all-opened latest dir (n ∷ names) e s f =
      let next = move_one os latest dir n (e, s) in
      move_all-opened latest dir names next.0 next.1 f ∙ move_one-opened latest dir n e s f

  move_listed-opened :
      (latest dir : Bytes) (o : Option (List Bytes)) (e : ErrorState) (s : os.State) (f : ℤ)
      → opened (move_listed os latest dir o (e, s)).1 f ≡ opened s f
  move_listed-opened latest dir none e s f = refl
  move_listed-opened latest dir (some names) e s f =
      move_all-opened latest dir (entries names) e s f

  pub move_out-opened :
      (latest dir : Bytes) (e : ErrorState) (s : os.State) (f : ℤ)
      → opened (move_out os latest dir (e, s)).1 f ≡ opened s f
  unfolding move_out
  move_out-opened latest dir e s f = move_listed-opened latest dir (os.list_dir latest s) e s f

  pub mkdir_p-opened : (p : Bytes) (s : os.State) (f : ℤ) → opened (mkdir_p os p s).1 f ≡ opened s f
  unfolding mkdir_p
  mkdir_p-opened p s f = mkdir_from-opened [] false p s f
