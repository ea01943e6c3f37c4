-- ===== src/Schedule/Dynamic/Example.antt =====
-- A run of the dynamic schedule with one client, a buffer of one request and a range of two values.
use Prim.Native.Nat.{zero-le}
use simple_parallel.Prelude.{ℕ, zero, suc, false, ◌<◌, List, [], ◌∷◌, ◌≡◌, refl, true, arith}
use simple_parallel.Prelude.Family.{put}
use simple_parallel.Schedule.Dynamic.Client.{Client, ClientPc, ClientMove}
use simple_parallel.Schedule.Dynamic.Server.{Server, ServerMove, Exchange, all_handled}
use simple_parallel.Schedule.Dynamic.System.{System, Step, Reach, start, later}

abbrev pub one : ℕ → ℕ
one _ = 1

pub zero-lt : 0 < 1
zero-lt = omega arith

pub not_handled : all_handled 1 one ≡ false
unfolding all_handled
not_handled = refl

pub handled : all_handled 1 (put one 0 0) ≡ true
unfolding all_handled
handled = refl

module _ {T : Type 0} (x y : T) where
  abbrev pub values : List T
  values = x ∷ y ∷ []

  abbrev pub Run : Type 0
  Run = (s : System T) × Reach 1 one values s

  abbrev pub client_does : (r : Run) {c : Client T} → ClientMove (r.0.client 0) c → Run
  client_does r {c} mv =
      (record (r.0) { client = put r.0.client 0 c }, later r.1 (Step.by_client 0 zero-lt mv))

  abbrev pub server_does : (r : Run) {v : Server T} → ServerMove 1 r.0.server v → Run
  server_does r {v} mv = (record (r.0) { server = v }, later r.1 (Step.by_server mv))

  abbrev pub both_do :
      (r : Run) {v : Server T} {c : Client T} → Exchange 1 0 r.0.server (r.0.client 0) v c → Run
  both_do r {v} {c} mv =
      (record { server = v; client = put r.0.client 0 c }, later r.1 (Step.exchange 0 zero-lt mv))

  abbrev pub ready : Run
  ready =
      client_does (client_does (_, start) (ClientMove.request refl)) (ClientMove.enter_barrier refl)

  pub ready_barrier : (i : ℕ) → i < 1 → (ready.0.client i).pc ≡ ClientPc.at_barrier
  ready_barrier zero lt = refl
  ready_barrier (suc i) lt = absurd (omega arith)

  abbrev pub released : Run
  released = (_, later ready.1 (Step.barrier refl ready_barrier))

  -- The one request is answered in the first round, and once more when it is received.
  abbrev pub all_sent : Run
  all_sent =
      let r =
        both_do (server_does released (ServerMove.round_over refl not_handled))
          (Exchange.answer refl refl refl) in
      let r' = server_does r (ServerMove.all_answered refl handled) in
      both_do r' (Exchange.serve 0 0 refl refl refl zero-le)

  abbrev pub client_ended : Run
  client_ended =
      let r =
        both_do (server_does all_sent (ServerMove.all_generated refl refl)) (Exchange.tell refl) in
      let r' =
        client_does (client_does r (ClientMove.value_arrives refl)) (ClientMove.take refl refl) in
      let r'' =
        client_does (client_does r' (ClientMove.next refl)) (ClientMove.none_yet refl refl) in
      let q =
        client_does (client_does r'' (ClientMove.value_arrives refl))
          (ClientMove.gen_done_arrives refl) in
      let q' =
        client_does (client_does q (ClientMove.learn refl refl refl))
          (ClientMove.take_late refl refl) in
      let q'' =
        client_does (client_does q' (ClientMove.next refl)) (ClientMove.none_yet refl refl) in
      client_does (client_does q'' (ClientMove.known refl refl)) (ClientMove.stop refl refl)

  abbrev pub all_ended : Run
  all_ended =
      let r =
        both_do (server_does client_ended (ServerMove.all_notified refl))
          (Exchange.collect refl refl) in
      let r' = server_does r (ServerMove.all_collected refl) in
      let r'' = both_do (both_do r' (Exchange.drain 1 refl refl)) (Exchange.drain 0 refl refl) in
      server_does r'' (ServerMove.drained refl)
