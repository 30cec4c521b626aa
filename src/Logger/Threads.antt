-- ===== src/Logger/Threads.antt =====
-- Threads of src/logger.cpp that need the same file at once: each loads the module's descriptor without
-- the mutex and goes on to it if there is none, and `ensure_file_open` looks again behind it. The mutex
-- makes what is behind it whole, so a thread has two steps.
pub mod Stored
pub mod Race
use mathlib.Core.Bool.{not}
use simple_logger.Base.{ℕ, Bool, List, [], ◌∷◌, Bytes, ◌==◌, if◌then◌else◌}
use simple_logger.Base.Int.{ℤ, eqb_ℤ}
use simple_logger.Format.{TimeText}
use simple_logger.Os.{Os}
use simple_logger.RunDir.{Run}
use simple_logger.Logger.{OpenErr, not_opened, no_open_err}
use simple_logger.Logger.Files.{World, ensure_file_open}
use simple_logger.Logger.Admit.{state_of}

-- Where a thread stands: before its load, at the mutex, or back with the descriptor and what it has to
-- report.
pub data Pc : Type 0 where
  loading waiting : Pc
  back : ℤ → OpenErr → Pc

module _ (os : Os) (tt_ : TimeText) (sort : List Run → List Run) (key : Bytes) where
  -- `fd = ms.file_fd.load(…); if (fd != -1) return fd;`
  abbrev pub loaded : ℤ → Pc
  loaded fd = if not (eqb_ℤ fd not_opened) then Pc.back fd no_open_err else Pc.waiting

  -- A thread's step.
  unfoldable pub turn : Pc → World os tt_ sort → Pc × World os tt_ sort
  turn Pc.loading w = (loaded (state_of key w.1.0).file_fd, w)
  turn Pc.waiting w =
      let ((fd, oe), w') = ensure_file_open os tt_ sort (state_of key w.1.0) w in
      (Pc.back fd oe, w')
  turn (Pc.back fd oe) w = (Pc.back fd oe, w)

  pub record System : Type 0 where
    pub world : World os tt_ sort
    pub pc : ℕ → Pc

  -- Before any thread's load.
  abbrev pub start : World os tt_ sort → System
  start w = record { world = w; pc = λ i. Pc.loading }

  -- Thread `i` takes its step.
  abbrev pub step : ℕ → System → System
  step i s =
      let (p, w) = turn (s.pc i) s.world in
      record { world = w; pc = λ j. if j == i then p else s.pc j }

  -- The threads take their steps in the given order.
  unfoldable pub run : List ℕ → System → System
  run [] s = s
  run (i ∷ turns) s = run turns (step i s)
