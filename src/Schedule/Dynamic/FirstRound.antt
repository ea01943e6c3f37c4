-- ===== src/Schedule/Dynamic/FirstRound.antt =====
-- The first round of the dynamic schedule answers requests that it does not receive.
use simple_parallel.Prelude.{
  ℕ, zero, suc, ◌+◌, ◌-◌, ◌<◌, min, List, [], ◌∷◌, ◌++◌, ◌≡◌, ◌≢◌, refl, arith, length, ap,
}
use simple_parallel.Prelude.Family.{put}
use simple_parallel.Schedule.Dynamic.Client
use simple_parallel.Schedule.Dynamic.Client.{Client, ClientPc, ClientMove}
use simple_parallel.Schedule.Dynamic.Server.{Server, ServerPc, ServerMove, Exchange, all_handled}
use simple_parallel.Schedule.Dynamic.System.{System, Step, Reach, initial, start, later}

module _ {T : Type 0} (buffer_size : ℕ) (range : List T) where
  abbrev sizes : ℕ → ℕ
  sizes _ = buffer_size

  -- A reachable state of one client where `k` requests are still to be sent.
  record Asking (k : ℕ) : Type 0 where
    s : System T
    reach : Reach 1 sizes range s
    untouched :
        s.server ≡ record { pc = ServerPc.at_barrier; iter = range; requests = λ _. 0; got = [] }
    place : (s.client 0).pc ≡ ClientPc.requesting k
    sum : (s.client 0).asked + k ≡ buffer_size

  asking : (k : ℕ) → Asking k → Asking 0
  asking zero a = a
  asking (suc k) a = asking k (record {
    s = record (a.s) {
      client =
          put (a.s.client) 0 (record (a.s.client 0) {
            pc = ClientPc.requesting k;
            asked = (a.s.client 0).asked + 1;
          });
    };
    reach = later (a.reach) (Step.by_client 0 (omega arith) (ClientMove.request (a.place)));
    untouched = a.untouched;
    place = refl;
    sum = omega (arith, a.sum);
  })

  -- A reachable state of the first round, before the test of its outer loop, with `k` answers to
  -- give to the client.
  record Answering (k : ℕ) : Type 0 where
    s : System T
    left : ℕ → ℕ
    reach : Reach 1 sizes range s
    place : s.server.pc ≡ ServerPc.first_time left 1
    still : left 0 ≡ k
    open_sends : s.server.requests 0 + k ≡ buffer_size
    asked : (s.client 0).asked ≡ buffer_size
    enough : k < length s.server.iter

  answered :
      (k : ℕ) (a : Answering (suc k)) (t : T) (rest : List T)
      → a.s.server.iter ≡ t ∷ rest
      → Answering k
  unfolding all_handled
  answered k a t rest e = record {
    s = record {
      server = record (a.s.server) {
        pc = ServerPc.first_time (put a.left 0 k) 1;
        iter = rest;
        requests = put a.s.server.requests 0 (min (a.s.server.requests 0 - 0 + 1) buffer_size);
      };
      client = put a.s.client 0 (record (a.s.client 0) {
        wire = (a.s.client 0).wire ++ Client.Message.server_send_val t ∷ [];
      });
    };
    left = put a.left 0 k;
    reach =
        later
          (later a.reach (Step.by_server (ServerMove.round_over a.place (ground (arith, a.still)))))
          (Step.exchange 0 (omega arith) (Exchange.answer refl a.still e));
    place = refl;
    still = refl;
    open_sends = omega (arith, a.open_sends);
    asked = a.asked;
    enough = omega (arith, ap length e, a.enough);
  }

  answering : (k : ℕ) → Answering k → Answering 0
  answering zero a = a
  answering (suc k) a = step (answering k) a.s.server.iter refl
    where
      step : (Answering k → Answering 0) → (iter : List T) → a.s.server.iter ≡ iter → Answering 0
      step go [] e = absurd (omega (arith, ap length e, a.enough))
      step go (t ∷ rest) e = go (answered k a t rest e)

  start-Asking : Asking buffer_size
  start-Asking = record {
    s = initial sizes range;
    reach = start;
    untouched = refl;
    place = refl;
    sum = omega arith;
  }

  released : buffer_size < length range → Asking 0 → Answering buffer_size
  released h a = record {
    s = record {
      server = record (a.s.server) { pc = ServerPc.first_time sizes 1 };
      client = λ i.
          record (put a.s.client 0 (record (a.s.client 0) { pc = ClientPc.at_barrier }) i) {
            pc = ClientPc.probing;
          };
    };
    left = sizes;
    reach =
        later (later a.reach (Step.by_client 0 (omega arith) (ClientMove.enter_barrier a.place)))
          (Step.barrier (ap (λ (s : Server T). s.pc) a.untouched) at_barrier);
    place = refl;
    still = refl;
    open_sends = omega (arith, ap (λ (s : Server T). s.requests 0) a.untouched);
    asked = omega (arith, a.sum);
    enough = omega (arith, h, ap (λ (s : Server T). length s.iter) a.untouched);
  }
    where
      at_barrier :
          (i : ℕ)
          → i < 1
          → (put a.s.client 0 (record (a.s.client 0) { pc = ClientPc.at_barrier }) i).pc
            ≡ ClientPc.at_barrier
      at_barrier zero lt = refl
      at_barrier (suc i) lt = absurd (omega arith)

  -- With one client, any buffer size and a range longer than that, this state is reachable: the
  -- leader is in `handle_client_request` with a value to give, all the client's first requests
  -- still wait to be received although each was answered, and the client's circular buffer is full
  -- of send requests, so that the assertion before the next answer fails unless a send is complete.
  pub first_round_overfull :
      buffer_size < length range
      → (s : System T) × Reach 1 sizes range s
        × (s.server.pc ≡ ServerPc.handling)
        × (s.server.iter ≢ [])
        × ((s.client 0).asked ≡ buffer_size)
        × (s.server.requests 0 ≡ buffer_size)
  unfolding all_handled
  first_round_overfull h =
      let a = answering buffer_size (released h (asking buffer_size start-Asking)) in
      (
        record (a.s) { server = record (a.s.server) { pc = ServerPc.handling } },
        later a.reach (Step.by_server (ServerMove.all_answered a.place (ground (arith, a.still)))),
        refl,
        (λ e. absurd (omega (arith, ap length e, a.enough))),
        a.asked,
        omega (arith, a.open_sends),
      )
