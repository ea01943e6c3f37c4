-- ===== src/Schedule/Dynamic/Bound/Reached.antt =====
-- The bound on what is under way holds in every reachable state.
use simple_parallel.Prelude.{
  ℕ, suc, ◌+◌, ◌*◌, ◌≤◌, ◌<◌, ◌≡◌, ◌≢◌, sym, subst, true, false, List, [], ◌∷◌, arith, length, ◌==◌,
  Bool-cases, inl, inr, ==→eq,
}
use simple_parallel.Prelude.Family.{put}
use simple_parallel.Schedule.Dynamic.Client.{Client, server_send_val, val_gen_done}
use simple_parallel.Schedule.Dynamic.Server.{Server, ServerPc, ServerMove, Exchange}
use simple_parallel.Schedule.Dynamic.System.{System, Step, Reach, start, later}
use simple_parallel.Schedule.Dynamic.Phase.Kept.{SystemPhase, Reach-Phase}
use simple_parallel.Schedule.Dynamic.Bound.{
  values_of, values_of-append, under_way, Quota, ClientMove-Quota,
}

module _ {T : Type 0} where
  module _ (n : ℕ) (sizes : ℕ → ℕ) where
    abbrev SystemQuota : Server T → (ℕ → Client T) → Type 0
    SystemQuota v client = (i : ℕ) → i < n → Quota v.pc i (sizes i) (client i)

    -- Of a place to another one, with the same clients.
    carry :
        {p : ServerPc} (q r : ServerPc) (client : ℕ → Client T)
        → p ≡ q
        → ((i : ℕ) → Quota q i (sizes i) (client i) → Quota r i (sizes i) (client i))
        → ((i : ℕ) → i < n → Quota p i (sizes i) (client i))
        → (i : ℕ) → i < n
        → Quota r i (sizes i) (client i)
    carry q r client e f h i lt = f i (subst (λ p. Quota p i (sizes i) (client i)) e (h i lt))

    ServerMove-Quota :
        {v v' : Server T} (client : ℕ → Client T)
        → ServerMove n v v'
        → SystemQuota v client
        → SystemQuota v' client
    ServerMove-Quota client (ServerMove.round_over {sizes = left} e f) h =
        carry (ServerPc.first_time left n) (ServerPc.first_time left 0) client e (λ i q. q) h
    ServerMove-Quota client (ServerMove.all_answered {sizes = left} e f) h =
        carry (ServerPc.first_time left n) ServerPc.handling client e (λ i q. omega (arith, q)) h
    ServerMove-Quota client (ServerMove.skip_client {sizes = left} {i = k} e f g) h =
        carry (ServerPc.first_time left k) (ServerPc.first_time left (suc k)) client e (λ i q. q) h
    ServerMove-Quota client (ServerMove.ran_out {sizes = left} {i = k} e f g m) h =
        carry (ServerPc.first_time left k) ServerPc.handling client e (λ i q. omega (arith, q)) h
    ServerMove-Quota client (ServerMove.yield e f) h =
        carry ServerPc.handling ServerPc.with_value client e (λ i q. q) h
    ServerMove-Quota client (ServerMove.next e f) h =
        carry ServerPc.with_value ServerPc.handling client e (λ i q. q) h
    ServerMove-Quota client (ServerMove.all_generated e f) h =
        carry ServerPc.handling (ServerPc.notifying 0) client e (λ i q. q) h
    ServerMove-Quota client (ServerMove.all_notified e) h =
        carry (ServerPc.notifying n) (ServerPc.collecting 0) client e (λ i q. q) h
    ServerMove-Quota client (ServerMove.all_collected e) h =
        carry (ServerPc.collecting n) ServerPc.draining client e (λ i q. q) h
    ServerMove-Quota client (ServerMove.drained e) h =
        carry ServerPc.draining ServerPc.finished client e (λ i q. q) h

    -- One client is put, whose bound follows from the one it had; the others' follow from theirs.
    put-Quota :
        (p : ServerPc) (i : ℕ) (client : ℕ → Client T) (c : Client T)
        → Quota p i (sizes i) c
        → ((j : ℕ) → j < n → j ≢ i → Quota p j (sizes j) (client j))
        → (j : ℕ) → j < n
        → Quota p j (sizes j) (put client i c j)
    put-Quota p i client c new old j lt = elim (Bool-cases (i == j)) [
      | inl same ↦ rw same (subst (λ k. Quota p k (sizes k) c) (==→eq i j same) new)
      | inr other ↦ rw other (old j lt (ground arith))
    ]

    Exchange-Quota :
        {i : ℕ} {v v' : Server T} (client : ℕ → Client T) {c : Client T}
        → i < n
        → Exchange (sizes i) i v (client i) v' c
        → SystemQuota v client
        → SystemQuota v' (put client i c)
    unfolding values_of
    Exchange-Quota {i = i} client {c} lt (Exchange.answer {sizes = left} {k = k} {t = t} e f g) h =
        let q : Quota (ServerPc.first_time left i) i (sizes i) (client i) =
          subst (λ p. Quota p i (sizes i) (client i)) e (h i lt) in
        let more = values_of-append (client i).wire (server_send_val t ∷ []) in
        let same : (i == i) ≡ true = ground arith in
        put-Quota (ServerPc.first_time (put left i k) (suc i)) i client c
          (rw same (omega (arith, q, f, more)))
          (λ j ltj other.
            let apart : (i == j) ≡ false = ground arith in
            rw apart (subst (λ p. Quota p j (sizes j) (client j)) e (h j ltj)))
    Exchange-Quota {i = i} client {c} lt (Exchange.serve {t = t} done k e f g m) h =
        let q : Quota ServerPc.handling i (sizes i) (client i) =
          subst (λ p. Quota p i (sizes i) (client i)) e (h i lt) in
        let more = values_of-append (client i).wire (server_send_val t ∷ []) in
        subst (λ p. (j : ℕ) → j < n → Quota p j (sizes j) (put client i c j)) (sym e)
          (put-Quota ServerPc.handling i client c (omega (arith, q, g, more))
            (λ j ltj other. subst (λ p. Quota p j (sizes j) (client j)) e (h j ltj)))
    Exchange-Quota {i = i} client {c} lt (Exchange.tell e) h =
        let q : Quota (ServerPc.notifying i) i (sizes i) (client i) =
          subst (λ p. Quota p i (sizes i) (client i)) e (h i lt) in
        let same = values_of-append (client i).wire (val_gen_done ∷ []) in
        put-Quota (ServerPc.notifying (suc i)) i client c (omega (arith, q, same))
          (λ j ltj other. subst (λ p. Quota p j (sizes j) (client j)) e (h j ltj))
    Exchange-Quota {i = i} client {c} lt (Exchange.collect e f) h =
        let q : Quota (ServerPc.collecting i) i (sizes i) (client i) =
          subst (λ p. Quota p i (sizes i) (client i)) e (h i lt) in
        put-Quota (ServerPc.collecting (suc i)) i client c (omega (arith, q))
          (λ j ltj other. subst (λ p. Quota p j (sizes j) (client j)) e (h j ltj))
    Exchange-Quota {i = i} client {c} lt (Exchange.drain k e f) h =
        let q : Quota ServerPc.draining i (sizes i) (client i) =
          subst (λ p. Quota p i (sizes i) (client i)) e (h i lt) in
        subst (λ p. (j : ℕ) → j < n → Quota p j (sizes j) (put client i c j)) (sym e)
          (put-Quota ServerPc.draining i client c (omega (arith, q, f))
            (λ j ltj other. subst (λ p. Quota p j (sizes j) (client j)) e (h j ltj)))

    Step-Quota :
        {s t : System T}
        → SystemPhase n s
        → Step n sizes s t
        → SystemQuota s.server s.client
        → SystemQuota t.server t.client
    Step-Quota {s} p (Step.by_client {c = c} i lt mv) h =
        put-Quota s.server.pc i s.client c
          (ClientMove-Quota s.server.pc i (sizes i) (s.client i) c (p.clients i lt) mv (h i lt))
          (λ j ltj other. h j ltj)
    Step-Quota {s} p (Step.by_server mv) h = ServerMove-Quota s.client mv h
    Step-Quota {s} p (Step.exchange i lt x) h = Exchange-Quota s.client lt x h
    Step-Quota {s} p (Step.barrier e f) h = λ i lt.
        let q : Quota ServerPc.at_barrier i (sizes i) (s.client i) =
          subst (λ p. Quota p i (sizes i) (s.client i)) e (h i lt) in
        omega (arith, q)

    Reach-Quota :
        {range : List T} {s : System T} → Reach n sizes range s → SystemQuota s.server s.client
    unfolding values_of
    Reach-Quota start = λ i lt. omega arith
    Reach-Quota (later r st) = Step-Quota (Reach-Phase r) st (Reach-Quota r)

    at_most_twice :
        (pc : ServerPc) (i size : ℕ) (c : Client T) → Quota pc i size c → under_way c ≤ 2 * size
    at_most_twice ServerPc.at_barrier i size c h = omega (arith, h)
    at_most_twice (ServerPc.first_time left k) i size c h = omega (arith, h)
    at_most_twice ServerPc.handling i size c h = h
    at_most_twice ServerPc.with_value i size c h = h
    at_most_twice (ServerPc.notifying k) i size c h = h
    at_most_twice (ServerPc.collecting k) i size c h = h
    at_most_twice ServerPc.draining i size c h = h
    at_most_twice ServerPc.finished i size c h = h

    -- Whatever the interleaving: the requests of a client that the leader has not received, the values
    -- that are on the way to it and the values that have arrived and it has not received are together
    -- at most twice its buffer size.
    pub under_way_bound :
        {range : List T} {s : System T}
        → Reach n sizes range s
        → (i : ℕ) → i < n
        → (s.client i).asked + values_of (s.client i).wire + length (s.client i).inbox ≤ 2 * sizes i
    under_way_bound {s = s} r i lt =
        at_most_twice s.server.pc i (sizes i) (s.client i) (Reach-Quota r i lt)
