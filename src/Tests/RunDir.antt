-- ===== src/Tests/RunDir.antt =====
-- A run with a tag whose first file cannot be created.
use simple_logger.Base.{◌≡◌, false, [], ◌∷◌, codes, List}
use simple_logger.Base.Int.{pos}
use simple_logger.Errors.{start_errors}
use simple_logger.RunDir.{Run}
use simple_logger.RunDir.Open.{open_run}
use simple_logger.RunDir.Leaks.{Adds, held}
use simple_logger.RunDir.Held.{open_run-held}
use simple_logger.Tests.Files.{table_os, table}

abbrev pub as_listed : List Run → List Run
as_listed runs = runs

open_run-held_example :
    let result =
      open_run table_os as_listed
        (codes "/var/log/app")
        (codes "web")
        (pos 2)
        (pos 0)
        (pos 42)
        (codes "20260101-000000")
        (codes "42.log")
        (start_errors, 1 ∷ 2 ∷ []) in
    Adds (held result.0) (table.opened (1 ∷ 2 ∷ [])) (table.opened result.1.1)
    × (result.0.ok ≡ false → held result.0 ≡ [])
open_run-held_example =
    open_run-held table_os table as_listed (codes "/var/log/app") (codes "web") (pos 2) (pos 0)
      (codes "42.log") (pos 42) (codes "20260101-000000") start_errors (1 ∷ 2 ∷ [])
