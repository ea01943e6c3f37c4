-- ===== src/Schedule/Dynamic/Completion.antt =====
-- The dynamic schedule ends with every value used once.
use simple_parallel.Prelude.{
  ℕ, suc, ◌+◌, ◌<◌, Bool, true, false, List, [], ◌≡◌, ◌≢◌, refl, sym, subst, inl, inr, arith, ltb,
  ◌==◌, Bool-cases, ==→eq, lt→ltb,
}
use simple_parallel.Prelude.Family.{put, put_all, total, total-weights}
use simple_parallel.Schedule.Dynamic.Client.{Client, ClientPc}
use simple_parallel.Schedule.Dynamic.Server.{Server, ServerPc, Exchange, send_value, notify}
use simple_parallel.Schedule.Dynamic.System.{System, Step, Reach, start, later}
use simple_parallel.Schedule.Dynamic.Channel.{
  Channel, ClientInv, Channel-quiet, send_value-Inv, notify-Inv, running-Inv,
}
use simple_parallel.Schedule.Dynamic.Invariant.{
  Inv, Ended, notified, at, by_client-Inv, ServerMove-Inv, initial-Inv, Ended-put,
}
use simple_parallel.Schedule.Dynamic.Conserve.{sum_of, sum_of_wire, held, kept, load, Reach-load}

module _ {T : Type 0} where
  asked-Inv :
      (sent : Bool) (c : Client T) (k : ℕ)
      → ClientInv sent c
      → ClientInv sent (record c { asked = k })
  asked-Inv true c k v = record {
    channel = v.channel;
    rechecked = v.rechecked;
    ended = v.ended;
    told_last = v.told_last;
  }
  asked-Inv false c k v = record {
    channel = v.channel;
    rechecked = v.rechecked;
    ended = v.ended;
    told_last = v.told_last;
  }

  -- A client other than the one that is told keeps its place.
  notified_next :
      (i : ℕ) (client : ℕ → Client T) (j : ℕ)
      → ClientInv (ltb j i) (client j)
      → j ≢ i
      → ClientInv (ltb j (suc i)) (client j)
  notified_next i client j v ne =
      subst (λ b. ClientInv b (client j))
        (let same : ltb j i ≡ ltb j (suc i) = ground arith in same) v

  tell-clients :
      (n i : ℕ) (client : ℕ → Client T)
      → i < n
      → ((j : ℕ) → j < n → ClientInv (ltb j i) (client j))
      → (j : ℕ) → j < n
      → ClientInv (ltb j (suc i)) (put client i (notify (client i)) j)
  tell-clients n i client lt old j ltj = elim (Bool-cases (i == j)) [
    | inl same ↦
        let e = ==→eq i j same in
        rw same (
          subst (λ k. ClientInv (ltb k (suc i)) (notify (client i))) e
            (subst (λ b. ClientInv b (notify (client i))) (sym (lt→ltb i (suc i) (omega arith)))
              (notify-Inv (client i) (
                subst (λ b. ClientInv b (client i)) (let no : ltb i i ≡ false = ground arith in no)
                  (old i lt)))))
    | inr other ↦ rw other (notified_next i client j (old j ltj) (ground arith))
  ]

  collect-Ended :
      (i : ℕ) (client : ℕ → Client T) (c : Client T)
      → c.pc ≡ ClientPc.finished
      → Ended i client
      → Ended (suc i) (put client i c)
  collect-Ended i client c e ended j lt = elim (Bool-cases (i == j)) [
    | inl same ↦ rw same e
    | inr other ↦ rw other (ended j (ground arith))
  ]

  Exchange-Inv :
      {capacity n i : ℕ} {s s' : Server T} (client : ℕ → Client T) {c : Client T}
      → i < n
      → Exchange capacity i s (client i) s' c
      → Inv n s.pc s.iter client
      → Inv n s'.pc s'.iter (put client i c)
  Exchange-Inv {n = n} {i = i} client lt (Exchange.answer {t = t} e f g) v = record {
    place = tt;
    clients =
        put_all (λ j d. ClientInv false d) n i client (send_value (client i) t)
          (send_value-Inv (client i) t ((at e v).clients i lt)) (at e v).clients;
  }
  Exchange-Inv {n = n} {i = i} {s = s} client lt (Exchange.serve {t = t} {rest = rest} d k e f g h)
        v =
      let w = at e v in
      let c = record (client i) { asked = k } in
      let new = send_value-Inv c t (asked-Inv false (client i) k (w.clients i lt)) in
      subst (λ p. Inv n p rest (put client i (send_value c t))) (sym e)
        (record {
          place = tt;
          clients = put_all (λ j d. ClientInv false d) n i client (send_value c t) new w.clients;
        })
  Exchange-Inv {n = n} {i = i} client lt (Exchange.tell e) v = record {
    place = (at e v).place;
    clients = tell-clients n i client lt (at e v).clients;
  }
  Exchange-Inv {n = n} {i = i} client lt (Exchange.collect e f) v =
      let w = at e v in
      let old = w.clients i lt in
      record {
        place = (
          w.place.0,
          collect-Ended i client (record (client i) { told = false }) (old.told_last f) w.place.1,
        );
        clients =
            put_all (λ j d. ClientInv true d) n i client (record (client i) { told = false })
              (record {
                channel = old.channel;
                rechecked = old.rechecked;
                ended = old.ended;
                told_last = λ q. cc;
              })
              w.clients;
      }
  Exchange-Inv {n = n} {i = i} {s = s} client lt (Exchange.drain k e f) v =
      let w = at e v in
      let c = record (client i) { asked = k } in
      subst (λ p. Inv n p s.iter (put client i c)) (sym e)
        (record {
          place = (w.place.0, Ended-put n i client c (λ q. q) w.place.1);
          clients =
              put_all (λ j d. ClientInv true d) n i client c
                (asked-Inv true (client i) k (w.clients i lt)) w.clients;
        })

  barrier-Inv :
      (n : ℕ) (sizes : ℕ → ℕ) (iter : List T) (client : ℕ → Client T)
      → ((i : ℕ) → i < n → (client i).pc ≡ ClientPc.at_barrier)
      → Inv n ServerPc.at_barrier iter client
      → Inv n (ServerPc.first_time sizes n) iter (λ i. record (client i) { pc = ClientPc.probing })
  barrier-Inv n sizes iter client e v = record {
    place = tt;
    clients = λ i lt.
        running-Inv false (client i) ClientPc.probing (client i).inbox (client i).asked
          (client i).got (λ q. cc) (λ q. cc) (λ q. cc (e i lt)) (v.clients i lt);
  }

  abbrev pub SystemInv : ℕ → System T → Type 0
  SystemInv n s = Inv n s.server.pc s.server.iter s.client

  pub Step-Inv :
      {n : ℕ} {sizes : ℕ → ℕ} {s t : System T} → Step n sizes s t → SystemInv n s → SystemInv n t
  Step-Inv {n} {s = s} (Step.by_client i lt mv) v =
      by_client-Inv n i s.server.pc s.server.iter s.client lt mv v
  Step-Inv {s = s} (Step.by_server mv) v = ServerMove-Inv s.client mv v
  Step-Inv {s = s} (Step.exchange i lt x) v = Exchange-Inv s.client lt x v
  Step-Inv {n} {sizes} {s = s} (Step.barrier e f) v =
      barrier-Inv n sizes s.server.iter s.client f (at e v)

  pub Reach-Inv :
      {n : ℕ} {sizes : ℕ → ℕ} {range : List T} {s : System T}
      → Reach n sizes range s
      → SystemInv n s
  Reach-Inv {n} {sizes} {range} start = initial-Inv n sizes range
  Reach-Inv (later r st) = Step-Inv st (Reach-Inv r)

  -- A client that has ended holds nothing but what it got.
  ended-held :
      (weight : T → ℕ) (sent : Bool) (c : Client T)
      → ClientInv sent c
      → c.pc ≡ ClientPc.finished
      → held weight c ≡ sum_of weight c.got
  unfolding held sum_of sum_of_wire
  ended-held weight sent c v e =
      let (f, inbox) = v.ended e in ground (arith, Channel-quiet sent c v.channel f, inbox)

  pub knows_end :
      (sent : Bool) (c : Client T) → Channel sent c → c.leader_gen_finished ≡ true → sent ≡ true
  knows_end true c h f = refl
  knows_end false c h f = cc

  load_parts :
      (weight : T → ℕ) (n : ℕ) (s : System T)
      → load weight n s ≡ kept weight s.server + total (held weight) n s.client
  unfolding load
  load_parts weight n s = refl

  kept_at_end : (weight : T → ℕ) (s : Server T) → s.iter ≡ [] → kept weight s ≡ sum_of weight s.got
  unfolding kept sum_of
  kept_at_end weight s e = ground arith

  -- Whatever the interleaving: when the leader has ended, every client has ended, and the values
  -- that the ranks' loops got are those of the range, each as often as it stands there. (The sums
  -- agree for every weight of the values, so for the weight that counts one value.)
  pub each_value_once :
      {n : ℕ} {sizes : ℕ → ℕ} {range : List T} {s : System T}
      → Reach n sizes range s
      → s.server.pc ≡ ServerPc.finished
      → Ended n s.client
        × ((weight : T → ℕ)
            → sum_of weight s.server.got + total (λ c. sum_of weight c.got) n s.client
              ≡ sum_of weight range)
  each_value_once {n} {s = s} r e =
      let v = Reach-Inv r in
      let w = at e v in
      (
        w.place.1,
        λ weight. omega (
          arith,
          load_parts weight n s,
          Reach-load weight r,
          kept_at_end weight s.server w.place.0,
          total-weights (held weight) (λ c. sum_of weight c.got) n s.client
              (λ i lt.
                ended-held weight (notified s.server.pc i) (s.client i) (v.clients i lt)
                  (w.place.1 i lt)),
        ),
      )
