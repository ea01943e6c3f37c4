-- ===== src/Schedule/Dynamic/Network/Ordered.antt =====
-- What the order of a pair's messages alone keeps, whatever values MPI reads.
use simple_parallel.Schedule.Dynamic.Client.{Client}
use simple_parallel.Schedule.Dynamic.System.{System}
use simple_parallel.Schedule.Dynamic.Channel.{Channel}
use simple_parallel.Schedule.Dynamic.Network.{Network}
