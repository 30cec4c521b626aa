-- ===== src/Tests/Sink.antt =====
-- A line of five bytes, written in parts between two signals.
use simple_logger.Base.{codes, arith}
use simple_logger.Base.Int.{pos}
use simple_logger.Sink.{write_all}
use simple_logger.Sink.WriteAll.{WrittenWell, write_all-WrittenWell}
use simple_logger.Tests.World.{small_os, small_posix, two_signals}

write_all-WrittenWell_example :
    WrittenWell
      (small_posix.contents two_signals (pos 1))
      (codes "line\n")
      (write_all small_os 7 (pos 1) (codes "line\n") two_signals).0
      (small_posix.contents (write_all small_os 7 (pos 1) (codes "line\n") two_signals).1 (pos 1))
write_all-WrittenWell_example =
    write_all-WrittenWell small_os small_posix 7 (pos 1) (codes "line\n") two_signals (omega arith)
