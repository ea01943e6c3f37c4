-- ===== src/Schedule/Dynamic/Channel.antt =====
-- What the messages between the leader and one client say about where the client stands.
use simple_parallel.Prelude.{
  ℕ, ◌+◌, Bool, true, false, List, [], ◌∷◌, ◌++◌, ◌≡◌, ◌≢◌, refl, ◌⊎◌, inl, inr, subst,
}
use simple_parallel.Schedule.Dynamic.Client.{
  Client, ClientPc, ClientMove, Message, server_send_val, val_gen_done, new_client,
}
use simple_parallel.Schedule.Dynamic.Server.{send_value, notify}

module _ {T : Type 0} where
  abbrev pub OnlyValues : List (Message T) → Type 0
  OnlyValues [] = Unit
  OnlyValues (server_send_val t ∷ ms) = OnlyValues ms
  OnlyValues (val_gen_done ∷ ms) = ⊥

  -- Values, and `val_gen_done` behind them.
  abbrev pub ThenDone : List (Message T) → Type 0
  ThenDone [] = ⊥
  ThenDone (server_send_val t ∷ ms) = ThenDone ms
  ThenDone (val_gen_done ∷ ms) = ms ≡ []

  OnlyValues-send :
      (ms : List (Message T)) (t : T) → OnlyValues ms → OnlyValues (ms ++ server_send_val t ∷ [])
  OnlyValues-send [] t h = tt
  OnlyValues-send (server_send_val u ∷ ms) t h = OnlyValues-send ms t h
  OnlyValues-send (val_gen_done ∷ ms) t h = absurd h

  OnlyValues-done : (ms : List (Message T)) → OnlyValues ms → ThenDone (ms ++ val_gen_done ∷ [])
  OnlyValues-done [] h = refl
  OnlyValues-done (server_send_val u ∷ ms) h = OnlyValues-done ms h
  OnlyValues-done (val_gen_done ∷ ms) h = absurd h

  -- The channel before and after the leader has sent `val_gen_done`.
  abbrev pub Channel : Bool → Client T → Type 0
  Channel false c =
      OnlyValues c.wire × (c.gen_done_arrived ≡ false) × (c.leader_gen_finished ≡ false)
  Channel true c =
      (ThenDone c.wire × (c.gen_done_arrived ≡ false) × (c.leader_gen_finished ≡ false))
      ⊎ ((c.wire ≡ []) × ((c.gen_done_arrived ≡ true) ⊎ (c.leader_gen_finished ≡ true)))

  pub record ClientInv (sent : Bool) (c : Client T) : Type 0 where
    pub channel : Channel sent c
    pub rechecked : c.pc ≡ ClientPc.rechecking → c.leader_gen_finished ≡ true
    pub ended : c.pc ≡ ClientPc.finished → (c.leader_gen_finished ≡ true) × (c.inbox ≡ [])
    pub told_last : c.told ≡ true → c.pc ≡ ClientPc.finished

  pub new_client-Inv : (k : ℕ) → ClientInv false (new_client k)
  new_client-Inv k = record {
    channel = (tt, refl, refl);
    rechecked = λ e. cc;
    ended = λ e. (cc, cc);
    told_last = λ e. cc;
  }

  -- Once the client knows the end, nothing is on the way to it.
  pub Channel-quiet :
      (sent : Bool) (c : Client T) → Channel sent c → c.leader_gen_finished ≡ true → c.wire ≡ []
  Channel-quiet true c (inl h) e = absurd (cc)
  Channel-quiet true c (inr h) e = h.0
  Channel-quiet false c h e = absurd (cc)

  pub send_value-Inv : (c : Client T) (t : T) → ClientInv false c → ClientInv false (send_value c t)
  send_value-Inv c t v = record {
    channel = (OnlyValues-send c.wire t v.channel.0, v.channel.1, v.channel.2);
    rechecked = v.rechecked;
    ended = v.ended;
    told_last = v.told_last;
  }

  pub notify-Inv : (c : Client T) → ClientInv false c → ClientInv true (notify c)
  notify-Inv c v = record {
    channel = inl (OnlyValues-done c.wire v.channel.0, v.channel.1, v.channel.2);
    rechecked = v.rechecked;
    ended = v.ended;
    told_last = v.told_last;
  }

  value-Channel :
      (sent : Bool) (c : Client T) (t : T) (rest : List (Message T)) (inbox : List T)
      → c.wire ≡ server_send_val t ∷ rest
      → Channel sent c
      → Channel sent (record c { wire = rest; inbox = inbox })
  value-Channel true c t rest inbox e (inl h) = inl (subst ThenDone e h.0, h.1, h.2)
  value-Channel true c t rest inbox e (inr h) = absurd (cc)
  value-Channel false c t rest inbox e h = (subst OnlyValues e h.0, h.1, h.2)

  done-Channel :
      (sent : Bool) (c : Client T) (rest : List (Message T))
      → c.wire ≡ val_gen_done ∷ rest
      → Channel sent c
      → Channel sent (record c { wire = rest; gen_done_arrived = true })
  done-Channel true c rest e (inl h) = inr (subst ThenDone e h.0, inl refl)
  done-Channel true c rest e (inr h) = absurd (cc)
  done-Channel false c rest e h = absurd (subst OnlyValues e h.0)

  learn-Channel :
      (sent : Bool) (c : Client T) (pc : ClientPc)
      → c.gen_done_arrived ≡ true
      → Channel sent c
      → Channel sent (record c { pc = pc; leader_gen_finished = true; gen_done_arrived = false })
  learn-Channel true c pc e (inl h) = absurd (cc)
  learn-Channel true c pc e (inr h) = inr (h.0, inr refl)
  learn-Channel false c pc e h = absurd (cc)

  -- The channel does not depend on the client's other fields.
  same-Channel :
      (sent : Bool) (c : Client T) (pc : ClientPc) (inbox : List T) (asked : ℕ) (told : Bool)
      (got : List T)
      → Channel sent c
      → Channel sent (record c { pc = pc; inbox = inbox; asked = asked; told = told; got = got })
  same-Channel true c pc inbox asked told got h = h
  same-Channel false c pc inbox asked told got h = h

  -- A step from a place that is not the last to one where nothing is promised.
  pub running-Inv :
      (sent : Bool) (c : Client T) (pc : ClientPc) (inbox : List T) (asked : ℕ) (got : List T)
      → pc ≢ ClientPc.rechecking
      → pc ≢ ClientPc.finished
      → c.pc ≢ ClientPc.finished
      → ClientInv sent c
      → ClientInv sent (record c { pc = pc; inbox = inbox; asked = asked; got = got })
  running-Inv sent c pc inbox asked got not_re not_end running v = record {
    channel = same-Channel sent c pc inbox asked c.told got v.channel;
    rechecked = λ q. absurd (not_re q);
    ended = λ q. absurd (not_end q);
    told_last = λ q. absurd (running (v.told_last q));
  }

  -- Every step of the client, and every arrival, keeps this.
  pub ClientMove-Inv :
      {c c' : Client T} (sent : Bool) → ClientMove c c' → ClientInv sent c → ClientInv sent c'
  ClientMove-Inv {c} sent (ClientMove.request {k = k} e) v =
      running-Inv sent c (ClientPc.requesting k) c.inbox (c.asked + 1) c.got (λ q. cc) (λ q. cc)
        (λ q. cc) v
  ClientMove-Inv {c} sent (ClientMove.enter_barrier e) v =
      running-Inv sent c ClientPc.at_barrier c.inbox c.asked c.got (λ q. cc) (λ q. cc) (λ q. cc) v
  ClientMove-Inv {c} sent (ClientMove.take {t = t} {rest = rest} e i) v =
      running-Inv sent c ClientPc.with_value rest (c.asked + 1) (t ∷ c.got) (λ q. cc) (λ q. cc)
        (λ q. cc) v
  ClientMove-Inv {c} sent (ClientMove.none_yet e i) v =
      running-Inv sent c ClientPc.checking c.inbox c.asked c.got (λ q. cc) (λ q. cc) (λ q. cc) v
  ClientMove-Inv {c} sent (ClientMove.go_on e f g) v =
      running-Inv sent c ClientPc.probing c.inbox c.asked c.got (λ q. cc) (λ q. cc) (λ q. cc) v
  ClientMove-Inv {c} sent (ClientMove.take_late {t = t} {rest = rest} e i) v =
      running-Inv sent c ClientPc.with_value rest (c.asked + 1) (t ∷ c.got) (λ q. cc) (λ q. cc)
        (λ q. cc) v
  ClientMove-Inv {c} sent (ClientMove.next e) v =
      running-Inv sent c ClientPc.probing c.inbox c.asked c.got (λ q. cc) (λ q. cc) (λ q. cc) v
  ClientMove-Inv {c} sent (ClientMove.known e f) v = record {
    channel = same-Channel sent c ClientPc.rechecking c.inbox c.asked c.told c.got v.channel;
    rechecked = λ q. f;
    ended = λ q. (cc, cc);
    told_last = λ q. absurd (cc (v.told_last q));
  }
  ClientMove-Inv {c} sent (ClientMove.learn e f g) v = record {
    channel = learn-Channel sent c ClientPc.rechecking g v.channel;
    rechecked = λ q. refl;
    ended = λ q. (cc, cc);
    told_last = λ q. absurd (cc (v.told_last q));
  }
  ClientMove-Inv {c} sent (ClientMove.stop e i) v = record {
    channel = same-Channel sent c ClientPc.finished c.inbox c.asked true c.got v.channel;
    rechecked = λ q. cc;
    ended = λ q. (v.rechecked e, i);
    told_last = λ q. refl;
  }
  ClientMove-Inv {c} sent (ClientMove.value_arrives {t = t} {rest = rest} e) v = record {
    channel = value-Channel sent c t rest (c.inbox ++ t ∷ []) e v.channel;
    rechecked = v.rechecked;
    ended = λ q. absurd (cc (Channel-quiet sent c v.channel (v.ended q).0));
    told_last = v.told_last;
  }
  ClientMove-Inv {c} sent (ClientMove.gen_done_arrives {rest = rest} e) v = record {
    channel = done-Channel sent c rest e v.channel;
    rechecked = v.rechecked;
    ended = v.ended;
    told_last = v.told_last;
  }
