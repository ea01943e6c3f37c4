-- ===== src/Schedule/Dynamic/Network/Delivered.antt =====
-- The dynamic schedule on an MPI that keeps the order of a pair's messages and copies what it sends.
use simple_parallel.Schedule.Dynamic.System.{System}
use simple_parallel.Schedule.Dynamic.Network.{Network}
