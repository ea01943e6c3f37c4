-- ===== src/Schedule/Dynamic/Network/Tests.antt =====
-- The runs of the dynamic schedule on an MPI with both promises, and on one with none.
use simple_parallel.Prelude.{true, false}
use simple_parallel.Schedule.Dynamic.System.{System}
use simple_parallel.Schedule.Dynamic.Network.{Network}

abbrev ordered_and_eager : Network
ordered_and_eager = record { in_order = true; copies = true }

abbrev ordered : Network
ordered = record { in_order = true; copies = false }

abbrev standard : Network
standard = record { in_order = false; copies = false }
