-- ===== src/Schedule/Dynamic/Phase/Kept.antt =====
-- Every step of the dynamic schedule keeps the places of the ranks.
use simple_parallel.Prelude.{
  ℕ, suc, ◌<◌, false, List, ◌≡◌, ◌≢◌, ◌∙◌, refl, arith, ◌==◌, Bool-cases, ==→eq, subst, sym, inl,
  inr,
}
use simple_parallel.Prelude.Family.{put, put_all}
use simple_parallel.Schedule.Dynamic.Client.{Client, ClientPc}
use simple_parallel.Schedule.Dynamic.Server.{Server, ServerPc, ServerMove, Exchange}
use simple_parallel.Schedule.Dynamic.System.{System, Step, Reach, start, later}
use simple_parallel.Schedule.Dynamic.Phase.{Side, collected, ClientPhase, Phase, ClientMove-Phase}

module _ {T : Type 0} where
  abbrev pub at_place :
      {n : ℕ} {p q : ServerPc} {iter : List T} {client : ℕ → Client T}
      → p ≡ q
      → Phase n p iter client
      → Phase n q iter client
  at_place {n} {iter = iter} {client = client} e v = subst (λ p. Phase n p iter client) e v

  -- Of a place to another one with the same clients before and behind the barrier.
  carry :
      {n : ℕ} (p q : ServerPc) {iter : List T} {client : ℕ → Client T}
      → ((c : ClientPc) → Side p c → Side q c)
      → ((i : ℕ) → collected q i ≡ false → collected p i ≡ false)
      → Phase n p iter client
      → (i : ℕ) → i < n
      → ClientPhase q i (client i)
  carry p q same back h i lt =
      let old = h.clients i lt in
      record { side = same _ old.side; told = λ e f. old.told (back i e) f }

  ServerMove-Phase :
      {n : ℕ} {s s' : Server T} (client : ℕ → Client T)
      → ServerMove n s s'
      → Phase n s.pc s.iter client
      → Phase n s'.pc s'.iter client
  ServerMove-Phase {n} client (ServerMove.round_over {sizes = sizes} e f) v = record {
    spot = omega arith;
    clients =
        carry (ServerPc.first_time sizes n) (ServerPc.first_time sizes 0) (λ c h. h) (λ i q. refl)
          (at_place e v);
  }
  ServerMove-Phase {n} client (ServerMove.all_answered {sizes = sizes} e f) v = record {
    spot = tt;
    clients =
        carry (ServerPc.first_time sizes n) ServerPc.handling (λ c h. h) (λ i q. refl)
          (at_place e v);
  }
  ServerMove-Phase client (ServerMove.skip_client {sizes = sizes} {i = k} e f g) v = record {
    spot = f;
    clients =
        carry (ServerPc.first_time sizes k) (ServerPc.first_time sizes (suc k)) (λ c h. h)
          (λ i q. refl) (at_place e v);
  }
  ServerMove-Phase client (ServerMove.ran_out {sizes = sizes} {i = k} e f g h) v = record {
    spot = tt;
    clients =
        carry (ServerPc.first_time sizes k) ServerPc.handling (λ c h. h) (λ i q. refl)
          (at_place e v);
  }
  ServerMove-Phase client (ServerMove.yield e f) v = record {
    spot = λ q. cc;
    clients = carry ServerPc.handling ServerPc.with_value (λ c h. h) (λ i q. refl) (at_place e v);
  }
  ServerMove-Phase client (ServerMove.next e f) v = record {
    spot = tt;
    clients = carry ServerPc.with_value ServerPc.handling (λ c h. h) (λ i q. refl) (at_place e v);
  }
  ServerMove-Phase client (ServerMove.all_generated e f) v = record {
    spot = omega arith;
    clients =
        carry ServerPc.handling (ServerPc.notifying 0) (λ c h. h) (λ i q. refl) (at_place e v);
  }
  ServerMove-Phase {n} client (ServerMove.all_notified e) v = record {
    spot = omega arith;
    clients =
        carry (ServerPc.notifying n) (ServerPc.collecting 0) (λ c h. h) (λ i q. refl)
          (at_place e v);
  }
  ServerMove-Phase {n} client (ServerMove.all_collected e) v = record {
    spot = tt;
    clients = carry (ServerPc.collecting n) ServerPc.draining (λ c h. h) (λ i q. cc) (at_place e v);
  }
  ServerMove-Phase client (ServerMove.drained e) v = record {
    spot = tt;
    clients = carry ServerPc.draining ServerPc.finished (λ c h. h) (λ i q. q) (at_place e v);
  }

  -- Neither a value on the way nor a request that is received changes a client's place.
  same_client :
      {pc : ServerPc} {i : ℕ} (c c' : Client T)
      → c'.pc ≡ c.pc
      → c'.told ≡ c.told
      → ClientPhase pc i c
      → ClientPhase pc i c'
  same_client {pc} c c' e f h = record {
    side = subst (Side pc) (sym e) h.side;
    told = λ q r. cc (h.told q (sym e ∙ r));
  }

  -- One client is put, the leader goes on to another place.
  put_client :
      {n : ℕ} (p q : ServerPc) {iter : List T} (i : ℕ) (client : ℕ → Client T) (c : Client T)
      → ((c : ClientPc) → Side p c → Side q c)
      → ((j : ℕ) → j ≢ i → collected q j ≡ false → collected p j ≡ false)
      → ClientPhase q i c
      → Phase n p iter client
      → (j : ℕ) → j < n
      → ClientPhase q j (put client i c j)
  put_client p q i client c same back new h j lt = elim (Bool-cases (i == j)) [
    | inl eq ↦ rw eq (subst (λ k. ClientPhase q k c) (==→eq i j eq) new)
    | inr other ↦
        let old = h.clients j lt in
        rw other
          (record { side = same _ old.side; told = λ e f. old.told (back j (ground arith) e) f })
  ]

  Exchange-Phase :
      {capacity n i : ℕ} {s s' : Server T} (client : ℕ → Client T) {c : Client T}
      → i < n
      → Exchange capacity i s (client i) s' c
      → Phase n s.pc s.iter client
      → Phase n s'.pc s'.iter (put client i c)
  Exchange-Phase {i = i} client {c} lt (Exchange.answer {sizes = sizes} {k = k} e f g) v =
      let w = at_place e v in
      record {
        spot = lt;
        clients =
            put_client (ServerPc.first_time sizes i) (ServerPc.first_time (put sizes i k) (suc i)) i
              client c (λ p h. h) (λ j ne q. refl)
              (record { side = (w.clients i lt).side; told = (w.clients i lt).told }) w;
      }
  Exchange-Phase {n = n} {i = i} client {c} lt (Exchange.serve {rest = rest} d k e f g h) v =
      let w = at_place e v in
      subst (λ p. Phase n p rest (put client i c)) (sym e)
        (record {
          spot = tt;
          clients =
              put_client ServerPc.handling ServerPc.handling i client c (λ p h. h) (λ j ne q. refl)
                (record { side = (w.clients i lt).side; told = (w.clients i lt).told }) w;
        })
  Exchange-Phase {i = i} client {c} lt (Exchange.tell e) v =
      let w = at_place e v in
      record {
        spot = lt;
        clients =
            put_client (ServerPc.notifying i) (ServerPc.notifying (suc i)) i client c (λ p h. h)
              (λ j ne q. refl)
              (record { side = (w.clients i lt).side; told = (w.clients i lt).told }) w;
      }
  Exchange-Phase {i = i} client {c} lt (Exchange.collect e f) v =
      let w = at_place e v in
      record {
        spot = lt;
        clients =
            put_client (ServerPc.collecting i) (ServerPc.collecting (suc i)) i client c (λ p h. h)
              (λ j ne q. ground arith)
              (record { side = (w.clients i lt).side; told = λ q r. absurd (ground arith) }) w;
      }
  Exchange-Phase {n = n} {i = i} {s = s} client {c} lt (Exchange.drain k e f) v =
      let w = at_place e v in
      subst (λ p. Phase n p s.iter (put client i c)) (sym e)
        (record {
          spot = tt;
          clients =
              put_client ServerPc.draining ServerPc.draining i client c (λ p h. h) (λ j ne q. q)
                (record { side = (w.clients i lt).side; told = (w.clients i lt).told }) w;
        })

  abbrev pub SystemPhase : ℕ → System T → Type 0
  SystemPhase n s = Phase n s.server.pc s.server.iter s.client

  pub Step-Phase :
      {n : ℕ} {sizes : ℕ → ℕ} {s t : System T}
      → Step n sizes s t
      → SystemPhase n s
      → SystemPhase n t
  Step-Phase {n} {s = s} (Step.by_client {c = c} i lt mv) v = record {
    spot = v.spot;
    clients =
        put_all (ClientPhase s.server.pc) n i s.client c
          (ClientMove-Phase s.server.pc i (s.client i) c mv (v.clients i lt)) v.clients;
  }
  Step-Phase {s = s} (Step.by_server mv) v = ServerMove-Phase s.client mv v
  Step-Phase {s = s} (Step.exchange i lt x) v = Exchange-Phase s.client lt x v
  Step-Phase (Step.barrier e f) v = record {
    spot = omega arith;
    clients = λ i lt. record { side = tt; told = λ q r. cc };
  }

  pub Reach-Phase :
      {n : ℕ} {sizes : ℕ → ℕ} {range : List T} {s : System T}
      → Reach n sizes range s
      → SystemPhase n s
  Reach-Phase start = record { spot = tt; clients = λ i lt. record { side = tt; told = λ q r. cc } }
  Reach-Phase (later r st) = Step-Phase st (Reach-Phase r)
