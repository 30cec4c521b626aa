-- ===== src/Tests/Errors.antt =====
-- A few failures.
use simple_logger.Base.{◌≡◌, refl, some, List, [], ◌∷◌, codes, ℕ, ◌+◌}
use simple_logger.Base.Int.{pos}
use simple_logger.Errors.{
  Errc, start_errors, set_error_handler, last_error, report, info_of, threw, Call,
}
use simple_logger.Errors.Record.{Failure, last_info}
use simple_logger.Errors.Report.{failing_handler, report_once}

abbrev two_failures : List Failure
two_failures =
    record { code = Errc.file_open; err = pos 13; what = codes "a.log" }
    ∷ record { code = Errc.file_open; err = pos 2; what = codes "b.log" }
    ∷ []

abbrev idle : Call ℕ
idle h u i s = (threw, s)

handled : (set_error_handler (some 7) 3 start_errors).handler ≡ some 7
unfolding set_error_handler
handled = refl

outside : (set_error_handler (some 7) 3 start_errors).in_handler ≡ 0
unfolding set_error_handler
outside = refl

report_once_example :
    let s =
      report
        (failing_handler idle two_failures threw)
        Errc.run_lock
        (pos 1)
        (codes "x")
        (set_error_handler (some 7) 3 start_errors, 4) in
    (s.1 ≡ 4 + 1)
    × (last_error s.0 ≡ last_info (info_of Errc.run_lock (pos 1) (codes "x")) two_failures)
report_once_example =
    report_once idle two_failures threw Errc.run_lock (pos 1) (codes "x")
      (set_error_handler (some 7) 3 start_errors) 7 4 handled outside
