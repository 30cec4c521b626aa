-- ===== src/Tests/Threads.antt =====
-- Two threads that need the same file.
use simple_logger.Base.{beq, ◌≡◌, refl, some, [], ◌∷◌, Bytes, codes}
use simple_logger.Base.Dict
use simple_logger.Base.Int.{pos}
use simple_logger.Errors.{start_errors}
use simple_logger.Logger.{Module, new_logger, new_module}
use simple_logger.Logger.Files.{World}
use simple_logger.Logger.Threads.{start, run}
use simple_logger.Logger.Threads.Stored.{OpensReal}
use simple_logger.Logger.Threads.Race.{IsRaced, run-opens_once}
use simple_logger.RunDir.{open_log_file}
use simple_logger.Tests.World.{small_os, two_signals}
use simple_logger.Tests.Format.{utc}
use simple_logger.Tests.RunDir.{as_listed}

abbrev net : Bytes
net = codes "net"

abbrev net_module : Module
net_module = new_module net net

abbrev before : World small_os utc as_listed
before = (
  start_errors,
  (record (new_logger (pos 1700000000000000000)) { modules = (net, net_module) ∷ [] }, two_signals),
)

pub small-OpensReal : OpensReal small_os
unfolding open_log_file
small-OpensReal fd p s got e = cc

net_known : Dict.lookup net before.1.0.modules ≡ some net_module
unfolding Dict.lookup beq
net_known = refl

run-opens_once_example :
    IsRaced small_os utc as_listed net net_module before (
      run small_os utc as_listed net (0 ∷ 1 ∷ 1 ∷ 0 ∷ []) (start small_os utc as_listed net before))
run-opens_once_example =
    run-opens_once small_os utc as_listed small-OpensReal net net_module refl before net_known refl
      (0 ∷ 1 ∷ 1 ∷ 0 ∷ [])
