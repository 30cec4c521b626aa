-- ===== src/Lib.antt =====
-- simple-logger (slog), a logging library for Linux: src/*.cpp, src/internal.h and include/slog/slog.h.
--
-- A log call asks the logger (src/logger.cpp) whether its module's threshold admits its level, and if
-- so formats a line (src/format.cpp) and writes it (src/sink.cpp) to a file of the run's directory
-- (src/run_dir.cpp) and to stdout. The thresholds come from settings that three layers of keys and
-- texts resolve to (src/config.cpp); levels have names in a registry (src/level.cpp). Failures are
-- recorded, noted on stderr and handed to the user's handler (src/error.cpp).
--
-- The files:
--   Base, Base/*     lists, texts as lists of bytes, C's integers, `std::map` as a sorted list
--   Text, Text/*     trimming, splitting and joining, numbers as text
--   Level, Level/*   src/level.cpp: `Registry`, `add_level`, `parse_level`, `level_name`
--   Errors, Errors/* src/error.cpp: its statics are `ErrorState`; `record` is `record_error`
--   Format, Format/* src/format.cpp: `parse_format` and `build_line`
--   Os               the system's calls, a parameter
--   Sink, Sink/*     src/sink.cpp: `write_all` and the memory capture
--   Config, Config/* src/config.cpp: `Settings`, `apply_kv`, `read_config_file`, `read_env`, and the
--                    merge of the layers of src/logger.cpp
--   RunDir, RunDir/* src/run_dir.cpp: `open_run` and all it calls
--   Logger, Logger/* src/logger.cpp: `Logger` holds its members and the globals beside it; Reload has
--                    `reload_locked`, Files the lazy opening, Admit `should_log`, Emit the rest
--                    of the hot path, Api the setters, `configure` and `init`, Life the shutdown,
--                    the restart and the reset
--   Logger/State     the invariant of the logger, over a step relation of all its calls
--   Logger/Policy    what the logger promises: layers of texts, and what they decide for a record;
--                    the calls of the logger beside those on a policy
--   Logger/Delivery  what a log call gives the descriptor of a file, and the fuel it needs
--   Logger/Threads   threads that race for a module's file; Logger/Forked, a forked child;
--                    Logger/Names and Logger/Stems, the names of its files
--   Macros, Macros/* include/slog/slog.h: the rate limits, and in Calls the macros over the logger
--   Testing, Testing/*  include/slog/testing.h: the clocks, the reset and the counters
--   Signals, Signals/*  the installation of the signal handlers
--   Tests/*          the theorems at concrete inputs
--
-- Code outside the repository is a parameter: the system's calls (`Os`), the user's error handler
-- (`Call`), the time zone and the printing of floats (`TimeText`). Where a theorem needs what such
-- code documents, that is a record of hypotheses (`Posix` and `Disk` for writes, `Table` for the
-- process's descriptors, `Spares` for what probes and unlinks keep, `Actions` for `sigaction`,
-- `IsGentle` for a handler that writes nothing), and the tests have an instance of it.
-- `std::sort` leaves the order of equal runs open, so the sorting of the runs is a parameter too,
-- and so is what `vsnprintf` prints.
--
-- `write_all` loops until the system has taken all bytes, so it is a recursion on fuel. A round takes
-- a byte or uses up a signal, so one for each byte and for each signal that can come is enough, and
-- 4096 for the bytes of the longest line. What calls it has no result while it is looping. The loop of
-- `unique_dest` has the rounds of its own bound. All other loops are structural.
--
-- A mutex makes an operation of the program whole, so each is one function from state to state; where
-- the code reads a shared number outside of it, a module of its own has the steps of the threads
-- (Logger/Threads, Macros/Race). Allocation does not fail here, so the catch blocks around the hot path
-- are not taken, and sizes of texts in memory do not wrap. A message is a value: that a handler that
-- logs would write over the thread's message buffer is not in the model. The exception that carries an
-- error code is the standard library's; the tests, the examples and the build files of the
-- repository are not modelled.
pub mod Base
pub mod Text
pub mod Level
pub mod Errors
pub mod Format
pub mod Os
pub mod Sink
pub mod Config
pub mod RunDir
pub mod Logger
pub mod Macros
pub mod Testing
pub mod Signals
mod Tests
