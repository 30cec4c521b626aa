-- ===== src/Tests/Testing.antt =====
-- A reset of a logger that was configured.
use simple_logger.Base.{◌+◌, ◌≡◌, []}
use simple_logger.Base.Int.{ℤ, pos}
use simple_logger.Testing.{Clocks, reset, format_spec_count}
use simple_logger.Testing.Reset.{reset-format_spec_count}
use simple_logger.Tests.Files.{table_os}
use simple_logger.Tests.Format.{utc}
use simple_logger.Tests.RunDir.{as_listed}
use simple_logger.Tests.State.{built}

abbrev steady : table_os.State → ℤ
steady s = pos 5

-- The time is pinned.
abbrev pinned : Clocks table_os steady
pinned = record { wall = λ s. pos 9; mono = steady }

reset-format_spec_count_example :
    format_spec_count (reset table_os steady utc as_listed (pinned, (built.0, (built.1, [])))).1.1.0
    ≡ format_spec_count built.1 + 1
reset-format_spec_count_example =
    reset-format_spec_count table_os steady utc as_listed pinned built.0 built.1 []
