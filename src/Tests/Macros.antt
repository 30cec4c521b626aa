-- ===== src/Tests/Macros.antt =====
-- Rate limits of three calls and of seconds.
use simple_logger.Base.{refl, List, [], ◌∷◌}
use simple_logger.Base.Int.{pos}
use simple_logger.Macros.Race
use simple_logger.Macros.Race.{Event, AreSpaced, fresh_site, run-AreSpaced}

-- Two threads read before either makes its exchange.
abbrev overlapping : List Event
overlapping =
    Event.reads 0 (pos 100)
    ∷ Event.reads 1 (pos 103)
    ∷ Event.exchanges 1
    ∷ Event.exchanges 0
    ∷ Event.reads 0 (pos 120)
    ∷ Event.exchanges 0
    ∷ []

run-AreSpaced_example : AreSpaced (pos 10) (Race.run (pos 10) overlapping fresh_site).logged
run-AreSpaced_example =
    run-AreSpaced (pos 10) overlapping (refl, (refl, (tt, (tt, (refl, (tt, tt))))))
