-- ===== src/Os.antt =====
-- What the program asks of the operating system, which is not part of it: a record of the calls
-- over an unknown state. A call that fails gives its `errno`.
use simple_logger.Base.{ℕ, Bool, Option, List, Bytes}
use simple_logger.Base.Int.{ℤ}

-- What `write(2)` answers: it was interrupted (EINTR), took so many bytes, or failed.
pub data Answer : Type 0 where
  interrupted : Answer
  wrote : ℕ → Answer
  failed : ℤ → Answer

-- A call that gives a value or fails.
pub data Outcome (A : Type 0) : Type 0 where
  good : A → Outcome A
  bad : ℤ → Outcome A

pub record Os : Type 1 where
  pub State : Type 0
  pub write : ℤ → Bytes → State → Answer × State
  pub fdatasync : ℤ → State → State
  pub close : ℤ → State → State
  -- `mkdir` and `access(F_OK)`
  pub mkdir : Bytes → State → Outcome (Unit {0}) × State
  pub exists : Bytes → State → Bool
  -- `opendir`, all of `readdir`, `closedir`
  pub list_dir : Bytes → State → Option (List Bytes)
  pub rename : Bytes → Bytes → State → Outcome (Unit {0}) × State
  pub unlink : Bytes → State → State
  -- `open` to create and lock a file, to open a directory, to open an old file, and `openat`
  pub open_create : Bytes → State → Outcome ℤ × State
  pub open_dir : Bytes → State → Outcome ℤ × State
  pub open_old : Bytes → State → Option ℤ × State
  pub open_append : ℤ → Bytes → State → Outcome ℤ × State
  -- `flock` with `LOCK_EX`, with `LOCK_EX | LOCK_NB` (whether it got the lock), with `LOCK_UN`
  pub lock : ℤ → State → State
  pub try_lock : ℤ → State → Bool × State
  pub unlock : ℤ → State → State
  -- `st_mtime`, if `stat` works, and `time`
  pub mtime : Bytes → State → Option ℤ
  pub time : State → ℤ
  -- `CLOCK_REALTIME` in nanoseconds, `getpid`, `gettid`, `isatty(STDOUT_FILENO)`
  pub wall_now : State → ℤ
  pub getpid : State → ℤ
  pub gettid : State → ℤ
  pub isatty : State → Bool
  pub strerror : ℤ → Bytes
