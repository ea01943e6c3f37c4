-- ===== src/Schedule/Dynamic/Invariant.antt =====
-- What holds in every reachable state of the dynamic schedule, and what follows when it ends.
use simple_parallel.Prelude.{
  ℕ, ◌<◌, Bool, true, false, List, [], ◌≡◌, refl, inl, inr, arith, ltb, ◌==◌, Bool-cases, ==→eq,
  subst, sym, lt→ltb, le→ltb,
}
use simple_parallel.Prelude.Family.{put, put_all}
use simple_parallel.Schedule.Dynamic.Client.{Client, ClientPc, ClientMove, new_client}
use simple_parallel.Schedule.Dynamic.Server.{Server, ServerPc, ServerMove}
use simple_parallel.Schedule.Dynamic.Channel.{ClientInv, new_client-Inv, ClientMove-Inv}

-- Whether `val_gen_done` was sent to client `i`.
abbrev pub notified : ServerPc → ℕ → Bool
notified ServerPc.at_barrier i = false
notified (ServerPc.first_time sizes k) i = false
notified ServerPc.handling i = false
notified ServerPc.with_value i = false
notified (ServerPc.notifying k) i = ltb i k
notified (ServerPc.collecting k) i = true
notified ServerPc.draining i = true
notified ServerPc.finished i = true

-- The first `m` clients have ended.
abbrev pub Ended : {T : Type 0} → ℕ → (ℕ → Client T) → Type 0
Ended m client = (i : ℕ) → i < m → (client i).pc ≡ ClientPc.finished

-- What the leader's place promises, with `n` clients.
abbrev pub Place : {T : Type 0} → ℕ → ServerPc → List T → (ℕ → Client T) → Type 0
Place n (ServerPc.notifying k) iter client = iter ≡ []
Place n (ServerPc.collecting k) iter client = (iter ≡ []) × Ended k client
Place n ServerPc.draining iter client = (iter ≡ []) × Ended n client
Place n ServerPc.finished iter client = (iter ≡ []) × Ended n client
Place n _ iter client = Unit

pub record Inv {T : Type 0} (n : ℕ) (pc : ServerPc) (iter : List T) (client : ℕ → Client T)
    : Type 0 where
  pub place : Place n pc iter client
  pub clients : (i : ℕ) → i < n → ClientInv (notified pc i) (client i)

module _ {T : Type 0} where
  pub initial-Inv :
      (n : ℕ) (sizes : ℕ → ℕ) (range : List T)
      → Inv n ServerPc.at_barrier range (λ i. new_client (sizes i))
  initial-Inv n sizes range = record { place = tt; clients = λ i lt. new_client-Inv (sizes i) }

  ClientMove-finished :
      {c c' : Client T} → ClientMove c c' → c.pc ≡ ClientPc.finished → c'.pc ≡ ClientPc.finished
  ClientMove-finished (ClientMove.request e) q = absurd (cc)
  ClientMove-finished (ClientMove.enter_barrier e) q = absurd (cc)
  ClientMove-finished (ClientMove.take e i) q = absurd (cc)
  ClientMove-finished (ClientMove.none_yet e i) q = absurd (cc)
  ClientMove-finished (ClientMove.known e f) q = absurd (cc)
  ClientMove-finished (ClientMove.learn e f g) q = absurd (cc)
  ClientMove-finished (ClientMove.go_on e f g) q = absurd (cc)
  ClientMove-finished (ClientMove.take_late e i) q = absurd (cc)
  ClientMove-finished (ClientMove.stop e i) q = refl
  ClientMove-finished (ClientMove.next e) q = absurd (cc)
  ClientMove-finished (ClientMove.value_arrives e) q = q
  ClientMove-finished (ClientMove.gen_done_arrives e) q = q

  pub Ended-put :
      (m i : ℕ) (client : ℕ → Client T) (c : Client T)
      → ((client i).pc ≡ ClientPc.finished → c.pc ≡ ClientPc.finished)
      → Ended m client
      → Ended m (put client i c)
  Ended-put m i client c keep ended j lt = elim (Bool-cases (i == j)) [
    | inl same ↦
        rw same (
          keep (subst (λ k. (client k).pc ≡ ClientPc.finished) (sym (==→eq i j same)) (ended j lt)))
    | inr other ↦ rw other (ended j lt)
  ]

  pub Place-put :
      (n i : ℕ) (pc : ServerPc) (iter : List T) (client : ℕ → Client T) (c : Client T)
      → ((client i).pc ≡ ClientPc.finished → c.pc ≡ ClientPc.finished)
      → Place n pc iter client
      → Place n pc iter (put client i c)
  Place-put n i (ServerPc.notifying k) iter client c keep h = h
  Place-put n i (ServerPc.collecting k) iter client c keep h =
      (h.0, Ended-put k i client c keep h.1)
  Place-put n i ServerPc.draining iter client c keep h = (h.0, Ended-put n i client c keep h.1)
  Place-put n i ServerPc.finished iter client c keep h = (h.0, Ended-put n i client c keep h.1)
  Place-put n i ServerPc.at_barrier iter client c keep h = tt
  Place-put n i (ServerPc.first_time sizes k) iter client c keep h = tt
  Place-put n i ServerPc.handling iter client c keep h = tt
  Place-put n i ServerPc.with_value iter client c keep h = tt

  pub by_client-Inv :
      (n i : ℕ) (pc : ServerPc) (iter : List T) (client : ℕ → Client T) {c : Client T}
      → i < n
      → ClientMove (client i) c
      → Inv n pc iter client
      → Inv n pc iter (put client i c)
  by_client-Inv n i pc iter client {c} lt mv v = record {
    place = Place-put n i pc iter client c (ClientMove-finished mv) v.place;
    clients =
        put_all (λ j d. ClientInv (notified pc j) d) n i client c
          (ClientMove-Inv (notified pc i) mv (v.clients i lt)) v.clients;
  }

  -- The invariant at the place that a step starts from.
  abbrev pub at :
      {n : ℕ} {p q : ServerPc} {iter : List T} {client : ℕ → Client T}
      → p ≡ q
      → Inv n p iter client
      → Inv n q iter client
  at {n} {iter = iter} {client = client} e v = subst (λ p. Inv n p iter client) e v

  pub ServerMove-Inv :
      {n : ℕ} {s s' : Server T} (client : ℕ → Client T)
      → ServerMove n s s'
      → Inv n s.pc s.iter client
      → Inv n s'.pc s'.iter client
  ServerMove-Inv client (ServerMove.round_over e f) v = record {
    place = tt;
    clients = (at e v).clients;
  }
  ServerMove-Inv client (ServerMove.all_answered e f) v = record {
    place = tt;
    clients = (at e v).clients;
  }
  ServerMove-Inv client (ServerMove.skip_client e f g) v = record {
    place = tt;
    clients = (at e v).clients;
  }
  ServerMove-Inv client (ServerMove.ran_out e f g h) v = record {
    place = tt;
    clients = (at e v).clients;
  }
  ServerMove-Inv client (ServerMove.yield e f) v = record { place = tt; clients = (at e v).clients }
  ServerMove-Inv client (ServerMove.next e f) v = record { place = tt; clients = (at e v).clients }
  ServerMove-Inv client (ServerMove.all_generated e f) v = record {
    place = f;
    clients = λ i lt.
        subst (λ b. ClientInv b (client i)) (sym (le→ltb i 0 (omega arith)))
          ((at e v).clients i lt);
  }
  ServerMove-Inv client (ServerMove.all_notified e) v = record {
    place = ((at e v).place, λ i lt. absurd (omega arith));
    clients = λ i lt. subst (λ b. ClientInv b (client i)) (lt→ltb i _ lt) ((at e v).clients i lt);
  }
  ServerMove-Inv client (ServerMove.all_collected e) v = record {
    place = (at e v).place;
    clients = (at e v).clients;
  }
  ServerMove-Inv client (ServerMove.drained e) v = record {
    place = (at e v).place;
    clients = (at e v).clients;
  }
