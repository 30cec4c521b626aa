-- ===== src/Tests/World.antt =====
-- A small operating system: each `write` takes at most two bytes, and the first calls of it are
-- interrupted. It is what the theorems about the system's calls are tried on.
use simple_logger.Base.{
  ℕ, zero, suc, ◌<◌, ◌≤◌, ◌≡◌, refl, true, false, some, [], ◌∷◌, ◌++◌, Bytes, codes, take, length,
  if◌then◌else◌, arith,
}
use simple_logger.Base.Int.{ℤ, pos, eqb_ℤ, eqb_ℤ_iff}
use simple_logger.Os.{Os, Answer, interrupted, wrote, failed, good}
use simple_logger.Sink.WriteAll.{Posix}

abbrev pub State : Type 0
State = ℕ × (ℤ → Bytes)

abbrev pub add_to : ℤ → Bytes → (ℤ → Bytes) → ℤ → Bytes
add_to fd s files f = if eqb_ℤ f fd then files f ++ s else files f

-- EBADF for no bytes.
abbrev pub small_write : ℤ → Bytes → State → Answer × State
small_write fd buf (suc n, files) = (interrupted, (n, files))
small_write fd [] (zero, files) = (failed (pos 9), (zero, files))
small_write fd (c ∷ []) (zero, files) = (wrote 1, (zero, add_to fd (c ∷ []) files))
small_write fd (c ∷ d ∷ s) (zero, files) = (wrote 2, (zero, add_to fd (c ∷ d ∷ []) files))

abbrev pub small_os : Os
small_os = record {
  State = State;
  write = small_write;
  fdatasync = λ fd s. s;
  close = λ fd s. s;
  mkdir = λ p s. (good tt, s);
  exists = λ p s. false;
  list_dir = λ p s. some [];
  rename = λ a b s. (good tt, s);
  unlink = λ p s. s;
  open_create = λ p s. (good (pos 3), s);
  open_dir = λ p s. (good (pos 4), s);
  open_old = λ p s. (some (pos 5), s);
  open_append = λ fd p s. (good (pos 6), s);
  lock = λ fd s. s;
  try_lock = λ fd s. (true, s);
  unlock = λ fd s. s;
  mtime = λ p s. some (pos 0);
  time = λ s. pos 100;
  wall_now = λ s. pos 1700000000000000000;
  getpid = λ s. pos 42;
  gettid = λ s. pos 43;
  isatty = λ s. false;
  strerror = λ e. codes "error";
}

abbrev pub two_signals : small_os.State
two_signals = (2, λ fd. [])

same_fd : (fd : ℤ) (s : Bytes) (files : ℤ → Bytes) → add_to fd s files fd ≡ files fd ++ s
same_fd fd s files = ground (arith, (eqb_ℤ_iff fd fd).1 refl)

pub wrote_part :
    (fd : ℤ) (buf : Bytes) (s : State) (n : ℕ)
    → (small_write fd buf s).0 ≡ wrote n
    → (0 < n)
      × (n ≤ length buf)
      × ((small_write fd buf s).1.1 fd ≡ s.1 fd ++ take n buf)
      × ((small_write fd buf s).1.0 ≤ s.0)
wrote_part fd [] (zero, files) n h = cc
wrote_part fd buf (suc m, files) n h = cc
wrote_part fd (c ∷ []) (zero, files) n h = ground (arith, same_fd fd (c ∷ []) files)
wrote_part fd (c ∷ d ∷ s) (zero, files) n h = ground (arith, same_fd fd (c ∷ d ∷ []) files)

pub interrupted_part :
    (fd : ℤ) (buf : Bytes) (s : State)
    → (small_write fd buf s).0 ≡ interrupted
    → ((small_write fd buf s).1.1 fd ≡ s.1 fd) × ((small_write fd buf s).1.0 < s.0)
interrupted_part fd buf (suc n, files) h = (refl, omega arith)
interrupted_part fd [] (zero, files) h = cc
interrupted_part fd (c ∷ []) (zero, files) h = cc
interrupted_part fd (c ∷ d ∷ s) (zero, files) h = cc

pub failed_part :
    (fd : ℤ) (buf : Bytes) (s : State) (e : ℤ)
    → (small_write fd buf s).0 ≡ failed e
    → (small_write fd buf s).1.1 fd ≡ s.1 fd
failed_part fd buf (suc n, files) e h = cc
failed_part fd [] (zero, files) e h = refl
failed_part fd (c ∷ []) (zero, files) e h = cc
failed_part fd (c ∷ d ∷ s) (zero, files) e h = cc

abbrev pub small_posix : Posix small_os
small_posix = record {
  contents = λ s fd. s.1 fd;
  pending = λ s. s.0;
  write_interrupted = interrupted_part;
  write_wrote = wrote_part;
  write_failed = failed_part;
}
