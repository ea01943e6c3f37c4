-- ===== src/Schedule/Threads/ParFor.antt =====
-- The loop S_P_GSS_UINT64_T_PAR_FOR on all ranks and threads: the generator, the dynamic schedule
-- and the threads together.
use simple_parallel.Prelude.{ℕ, zero, suc, ◌<◌, ◌≡◌, List, [], ◌∷◌, ltb, word, if◌then◌else◌}
use simple_parallel.Prelude.Family.{total}
use simple_parallel.Schedule.Gss.{SimpleTask}
use simple_parallel.Schedule.Dynamic.Client.{Client}
use simple_parallel.Schedule.Dynamic.System.{System}
use simple_parallel.Schedule.Dynamic.Conserve.{sum_of}
use simple_parallel.Schedule.Dynamic.Network.{Network}
use simple_parallel.Schedule.Threads.{gss_loop, ThreadPc, Team, TeamReach}

-- The values that a loop got, the first one first.
unfoldable pub reverse_onto : {T : Type 0} → List T → List T → List T
reverse_onto [] acc = acc
reverse_onto (t ∷ ts) acc = reverse_onto ts (t ∷ acc)

-- The tasks that rank `k` got, in order.
unfoldable pub given : System SimpleTask → ℕ → List SimpleTask
given s zero = reverse_onto s.server.got []
given s (suc i) = reverse_onto (s.client i).got []

-- The threads of a rank.
pub record Rank : Type 0 where
  pub threads : ℕ
  pub team : Team SimpleTask ℕ

-- The team of a rank that got some tasks has come to the end of the loop.
pub record HasLeft (tasks : List SimpleTask) (r : Rank) : Type 0 where
  pub some_thread : 0 < r.threads
  pub reach : TeamReach gss_loop r.threads tasks r.team
  pub left : (i : ℕ) → i < r.threads → (r.team.thread i).pc ≡ ThreadPc.left

abbrev pub sum_ran : (ℕ → ℕ) → Rank → ℕ
sum_ran weight r = total (λ th. sum_of weight th.ran) r.threads r.team.thread

-- A weight that is 0 on the tasks that end below 2^64 and on no other.
abbrev too_long : SimpleTask → ℕ
too_long t = if ltb t.end word then 0 else 1
