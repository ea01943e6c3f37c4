-- ===== src/Schedule/Dynamic/System.antt =====
-- The leader and `n` clients together, include/simple_parallel/cxx/dynamic_schedule.h.
use simple_parallel.Prelude.{ℕ, ◌<◌, List, ◌≡◌}
use simple_parallel.Prelude.Family.{put}
use simple_parallel.Schedule.Dynamic.Client.{Client, ClientMove, new_client}
use simple_parallel.Schedule.Dynamic.Client
use simple_parallel.Schedule.Dynamic.Server.{Server, ServerMove, Exchange, new_server}
use simple_parallel.Schedule.Dynamic.Server

pub record System (T : Type 0) : Type 0 where
  pub server : Server T
  pub client : ℕ → Client T

module _ {T : Type 0} where
  -- `n` clients with the buffer sizes `sizes` over a range.
  abbrev pub initial : (ℕ → ℕ) → List T → System T
  initial sizes range = record { server = new_server range; client = λ i. new_client (sizes i) }

  pub data Step (n : ℕ) (sizes : ℕ → ℕ) (s : System T) : System T → Type 0 where
    by_client :
        {c : Client T} (i : ℕ)
        → i < n
        → ClientMove (s.client i) c
        → Step n sizes s (record s { client = put s.client i c })
    by_server : {v : Server T} → ServerMove n s.server v → Step n sizes s (record s { server = v })
    exchange :
        {v : Server T} {c : Client T} (i : ℕ)
        → i < n
        → Exchange (sizes i) i s.server (s.client i) v c
        → Step n sizes s (record { server = v; client = put s.client i c })
    -- `m_comm.barrier()`, which all leave when all have entered; the leader's first round starts at
    -- the test of its outer loop
    barrier :
        s.server.pc ≡ Server.ServerPc.at_barrier
        → ((i : ℕ) → i < n → (s.client i).pc ≡ Client.ClientPc.at_barrier)
        → Step n sizes s (record {
          server = record (s.server) { pc = Server.ServerPc.first_time sizes n };
          client = λ i. record (s.client i) { pc = Client.ClientPc.probing };
        })

  pub data Reach (n : ℕ) (sizes : ℕ → ℕ) (range : List T) : System T → Type 0 where
    start : Reach n sizes range (initial sizes range)
    later : {s t : System T} → Reach n sizes range s → Step n sizes s t → Reach n sizes range t
