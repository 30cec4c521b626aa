-- ===== src/Logger/Files/Signalled.antt =====
-- A fatal signal in the middle of `register_crash_fd` of src/logger.cpp: the handler runs between two of
-- the stores.
use simple_logger.Base.{◌+◌, List, [], ◌∷◌, ◌++◌, take, leb, min, if◌then◌else◌}
use simple_logger.Base.Int.{ℤ}
use simple_logger.Os.{Os}
use simple_logger.Logger.{Logger}
use simple_logger.Logger.Files.{k_max_crash_fds}

-- How far the code is: before `push_back`, behind it, behind the store of the slot, and behind that of the
-- count.
pub data Stage : Type 0 where
  before pushed slot_stored counted : Stage

abbrev pub push : ℤ → Logger → Logger
push fd lg = record lg { open_fds = lg.open_fds ++ fd ∷ [] }

abbrev pub store_slot : ℤ → Logger → Logger
store_slot fd lg = record lg { crash_fds = take lg.crash_fd_count lg.crash_fds ++ fd ∷ [] }

abbrev pub store_count : Logger → Logger
store_count lg = record lg { crash_fd_count = lg.crash_fd_count + 1 }

-- `if (i >= kMaxCrashFds) return;`
abbrev pub if_room : Logger → Logger → Logger
if_room lg stored = if leb k_max_crash_fds lg.crash_fd_count then lg else stored

unfoldable pub at_stage : Stage → ℤ → Logger → Logger
at_stage Stage.before fd lg = lg
at_stage Stage.pushed fd lg = push fd lg
at_stage Stage.slot_stored fd lg = if_room (push fd lg) (store_slot fd (push fd lg))
at_stage Stage.counted fd lg = if_room (push fd lg) (store_count (store_slot fd (push fd lg)))

-- The files that were open when the signal came.
abbrev pub open_at : Stage → ℤ → Logger → List ℤ
open_at Stage.before fd lg = lg.open_fds
open_at Stage.pushed fd lg = lg.open_fds
open_at Stage.slot_stored fd lg = lg.open_fds
open_at Stage.counted fd lg = lg.open_fds ++ fd ∷ []

-- What the handler reads of the table.
abbrev visited : Logger → List ℤ
visited lg = take (min lg.crash_fd_count k_max_crash_fds) lg.crash_fds
