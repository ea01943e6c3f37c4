-- ===== src/Schedule/Dynamic/Tests.antt =====
-- The theorems on the dynamic schedule at the states of a run.
use simple_parallel.Prelude.{ℕ, ◌+◌, ◌*◌, ◌≤◌, length, some, List, [], ◌∷◌, ◌≡◌, ◌≢◌, refl, arith}
use simple_parallel.Schedule.Dynamic.Server.{ServerPc}
use simple_parallel.Schedule.Dynamic.System.{System, Reach}
use simple_parallel.Schedule.Dynamic.Handlers.{
  single_rank_handler, server_handler, client_handler, new_iterator, single_rank_loop, done,
  get_value, next,
}
use simple_parallel.Schedule.Dynamic.Bound.{values_of}
use simple_parallel.Schedule.Dynamic.Bound.Reached.{under_way_bound}
use simple_parallel.Schedule.Dynamic.FirstRound.{first_round_overfull}
use simple_parallel.Schedule.Dynamic.Example.{one, zero-lt, values, all_sent, all_ended}

client_got : ((all_ended {T = ℕ} 10 20).0.client 0).got ≡ 20 ∷ 10 ∷ []
client_got = refl

first_round_overfull_example :
    (s : System ℕ) × Reach 1 (λ _. 1) (values {T = ℕ} 10 20) s
    × (s.server.pc ≡ ServerPc.handling)
    × (s.server.iter ≢ [])
    × ((s.client 0).asked ≡ 1)
    × (s.server.requests 0 ≡ 1)
first_round_overfull_example = first_round_overfull 1 (values {T = ℕ} 10 20) (omega arith)

under_way_bound_example :
    ((all_sent {T = ℕ} 10 20).0.client 0).asked
      + values_of ((all_sent {T = ℕ} 10 20).0.client 0).wire
      + length ((all_sent {T = ℕ} 10 20).0.client 0).inbox
    ≤ 2 * 1
under_way_bound_example = under_way_bound 1 one (all_sent 10 20).1 0 zero-lt

-- All ranks of a communicator of three.
abbrev gather_three : (ℕ → ℕ) → List ℕ
gather_three f = f 0 ∷ f 1 ∷ f 2 ∷ []

handlers_run :
    (new_iterator gather_three 3 0 (λ k. 4 + k) ≡ server_handler (0 ∷ 5 ∷ 6 ∷ []))
    × (new_iterator gather_three 3 2 (λ k. 4 + k) ≡ client_handler 6)
    × (new_iterator gather_three 1 0 (λ k. 4) ≡ single_rank_handler)
    × (single_rank_loop {T = ℕ} 3 (5 ∷ 6 ∷ []) ≡ some (5 ∷ 6 ∷ []))
unfolding new_iterator single_rank_loop done get_value next
handlers_run = (refl, refl, refl, refl)
