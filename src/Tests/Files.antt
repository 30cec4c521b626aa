-- ===== src/Tests/Files.antt =====
-- A small system with a table of open descriptors: a new one is above all that are open.
use mathlib.Core.Bool.{◌||◌}
use simple_logger.Base.{
  ℕ, suc, ◌+◌, ◌<◌, ◌≡◌, refl, Bool, true, false, none, some, List, [], ◌∷◌, codes, if◌then◌else◌,
  arith,
}
use simple_logger.Base.Int.{ℤ, pos, eqb_ℤ, eqb_ℤ_iff}
use simple_logger.Os.{Os, wrote, good, bad}
use simple_logger.RunDir.Descriptors.{Opens, Table}

abbrev pub sum : List ℕ → ℕ
sum [] = 0
sum (n ∷ s) = n + sum s

abbrev pub has : List ℕ → ℤ → Bool
has [] f = false
has (n ∷ s) f = eqb_ℤ f (pos n) || has s f

abbrev pub without : ℤ → List ℕ → List ℕ
without fd [] = []
without fd (n ∷ s) = if eqb_ℤ (pos n) fd then without fd s else n ∷ without fd s

abbrev pub next : List ℕ → ℕ
next s = suc (sum s)

abbrev pub table_os : Os
table_os = record {
  State = List ℕ;
  write = λ fd buf s. (wrote 1, s);
  fdatasync = λ fd s. s;
  close = λ fd s. without fd s;
  mkdir = λ p s. (bad (pos 17), s);
  exists = λ p s. false;
  list_dir = λ p s. some (codes "old.log" ∷ codes ".slog-run-7-x.lock" ∷ []);
  rename = λ a b s. (good tt, s);
  unlink = λ p s. s;
  open_create = λ p s. (good (pos (next s)), next s ∷ s);
  open_dir = λ p s. (good (pos (next s)), next s ∷ s);
  open_old = λ p s. (none, s);
  open_append = λ fd p s. (bad (pos 28), s);
  lock = λ fd s. s;
  try_lock = λ fd s. (true, s);
  unlock = λ fd s. s;
  mtime = λ p s. some (pos 50);
  time = λ s. pos 100;
  wall_now = λ s. pos 1700000000000000000;
  getpid = λ s. pos 42;
  gettid = λ s. pos 43;
  isatty = λ s. false;
  strerror = λ e. codes "error";
}

over_all : (m : ℕ) (s : List ℕ) → sum s < m → has s (pos m) ≡ false
over_all m [] h = refl
over_all m (n ∷ s) h = ground (arith, over_all m s (omega arith))

closed_one :
    (fd f : ℤ) (s : List ℕ) → has (without fd s) f ≡ (if eqb_ℤ f fd then false else has s f)
closed_one fd f [] = ground arith
closed_one fd f (n ∷ s) =
    ground (arith, closed_one fd f s, eqb_ℤ_iff f fd, eqb_ℤ_iff (pos n) fd, eqb_ℤ_iff f (pos n))

opened_next : (s : List ℕ) → Opens (has s) (good (pos (next s))) (has (next s ∷ s))
opened_next s = (over_all (next s) s (omega arith), λ f. grown (eqb_ℤ f (pos (next s))) (has s f))
  where
    grown : (a b : Bool) → (a || b) ≡ (if a then true else b)
    grown true b = refl
    grown false b = refl

pub table : Table table_os
table = record {
  opened = has;
  open_create = λ p s. opened_next s;
  open_dir = λ p s. opened_next s;
  open_append = λ fd p s f. refl;
  open_old = λ p s f. refl;
  close = closed_one;
  mkdir = λ p f s. refl;
  rename = λ a b f s. refl;
  unlink = λ p f s. refl;
  lock = λ fd f s. refl;
  try_lock = λ fd f s. refl;
  unlock = λ fd f s. refl;
}
