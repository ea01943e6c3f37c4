-- ===== src/Schedule/Dynamic/Liveness/Cleanup.antt =====
-- The loops of `finish_cleanup` of include/simple_parallel/cxx/dynamic_schedule.h can be left: each
-- client can come to its end and its last message is received.
use simple_parallel.Prelude.{
  ℕ, zero, suc, ◌+◌, ◌<◌, true, false, List, [], ◌∷◌, ◌≡◌, ◌∙◌, refl, sym, ap, subst, arith, inl,
  inr, Bool-cases, ◌==◌, ltb,
}
use simple_parallel.Prelude.Family.{put}
use simple_parallel.Schedule.Dynamic.Client.{
  Client, ClientPc, ClientMove, Message, server_send_val, val_gen_done,
}
use simple_parallel.Schedule.Dynamic.Server.{ServerPc, ServerMove, Exchange}
use simple_parallel.Schedule.Dynamic.System.{System}
use simple_parallel.Schedule.Dynamic.Channel.{ClientInv, ThenDone}
use simple_parallel.Schedule.Dynamic.Invariant.{at}
use simple_parallel.Schedule.Dynamic.Phase.{Late}
use simple_parallel.Schedule.Dynamic.Phase.Kept.{at_place}
use simple_parallel.Schedule.Dynamic.Liveness.{
  CanEnd, Sound, stay, server_on, exchange_on, client_on,
}

pub put_same : {A : Type 0} (f : ℕ → A) (i : ℕ) (a : A) → put f i a i ≡ a
put_same f i a = let same : (i == i) ≡ true = ground arith in rw same refl

-- A client to which `val_gen_done` was sent and which has received everything knows the end, or can
-- learn it.
arrived :
    {T : Type 0} (c : Client T)
    → ClientInv true c
    → c.wire ≡ []
    → c.leader_gen_finished ≡ false
    → c.gen_done_arrived ≡ true
arrived c v e f = elim v.channel [
  | inl h ↦ absurd (subst ThenDone e h.0)
  | inr h ↦ elim (h.1) [ inl g ↦ g | inr g ↦ cc ]
]

module _ {T : Type 0} (n : ℕ) (sizes : ℕ → ℕ) where
  pub from_draining :
      (s : System T) → Sound n sizes s → s.server.pc ≡ ServerPc.draining → CanEnd n sizes s
  from_draining s a e =
      server_on n sizes (ServerMove.drained e) a
        (λ b. record { end = _; run = stay; finished = refl })

  module _ (k : ℕ) (lt : k < n) where
    -- While the leader waits for client `k`, it can come to its end from where it stands.
    abbrev Driven : Client T → Type 0
    Driven c =
        (s : System T)
        → Sound n sizes s
        → s.server.pc ≡ ServerPc.collecting k
        → s.client k ≡ c
        → CanEnd n sizes s

    drive : {c c' : Client T} → ClientMove c c' → Driven c' → Driven c
    drive {c} {c'} mv d s a e f =
        client_on n sizes k lt (subst (λ (d : Client T). ClientMove d c') (sym f) mv) a
          (λ b. d _ b e (put_same s.client k c'))

    told_of :
        (s : System T)
        → Sound n sizes s
        → s.server.pc ≡ ServerPc.collecting k
        → (s.client k).pc ≡ ClientPc.finished
        → (s.client k).told ≡ true
    told_of s a e =
        ((at_place e a.phase).clients k lt).told (let off : ltb k k ≡ false = ground arith in off)

    inv_of :
        (s : System T) (c : Client T)
        → Sound n sizes s
        → s.server.pc ≡ ServerPc.collecting k
        → s.client k ≡ c
        → ClientInv true c
    inv_of s c a e f = subst (ClientInv true) f ((at e a.inv).clients k lt)

    module _ (done : (c : Client T) → c.pc ≡ ClientPc.finished → Driven c) where
      to_rechecking :
          (c : Client T)
          → c.wire ≡ []
          → c.pc ≡ ClientPc.checking
          → ((d : Client T)
              → d.wire ≡ []
              → d.inbox ≡ c.inbox
              → d.pc ≡ ClientPc.rechecking
              → Driven d)
          → Driven c
      to_rechecking c w p go s a e f = elim (Bool-cases c.leader_gen_finished) [
        | inl g ↦ drive (ClientMove.known p g) (go _ w refl refl) s a e f
        | inr g ↦
            drive (ClientMove.learn p g (arrived c (inv_of s c a e f) w g)) (go _ w refl refl) s a e
              f
      ]

      from_probing :
          (inbox : List T) (c : Client T)
          → c.inbox ≡ inbox
          → c.wire ≡ []
          → c.pc ≡ ClientPc.probing
          → Driven c
      from_probing [] c i w p =
          drive (ClientMove.none_yet p i) (
            to_rechecking _ w refl
              (λ d w' i' p'. drive (ClientMove.stop p' (i' ∙ i)) (done _ refl)))
      from_probing (t ∷ rest) c i w p =
          drive (ClientMove.take p i)
            (drive (ClientMove.next refl) (from_probing rest _ refl w refl))

      from_rechecking :
          (inbox : List T) (c : Client T)
          → c.inbox ≡ inbox
          → c.wire ≡ []
          → c.pc ≡ ClientPc.rechecking
          → Driven c
      from_rechecking [] c i w p = drive (ClientMove.stop p i) (done _ refl)
      from_rechecking (t ∷ rest) c i w p =
          drive (ClientMove.take_late p i)
            (drive (ClientMove.next refl) (from_probing rest _ refl w refl))

      -- From every place behind the barrier.
      from_place : (pc : ClientPc) (c : Client T) → Late pc → c.pc ≡ pc → c.wire ≡ [] → Driven c
      from_place (ClientPc.requesting r) c l p w = absurd l
      from_place ClientPc.at_barrier c l p w = absurd l
      from_place ClientPc.probing c l p w = from_probing c.inbox c refl w p
      from_place ClientPc.checking c l p w =
          to_rechecking c w p (λ d w' i' p'. from_rechecking d.inbox d refl w' p')
      from_place ClientPc.rechecking c l p w = from_rechecking c.inbox c refl w p
      from_place ClientPc.with_value c l p w =
          drive (ClientMove.next p) (from_probing c.inbox _ refl w refl)
      from_place ClientPc.finished c l p w = done c p

      -- What is on the way arrives first.
      from_wire : (wire : List (Message T)) (c : Client T) → c.wire ≡ wire → Late c.pc → Driven c
      from_wire [] c e l = from_place c.pc c l refl e
      from_wire (server_send_val t ∷ rest) c e l =
          drive (ClientMove.value_arrives e) (from_wire rest _ refl l)
      from_wire (val_gen_done ∷ rest) c e l =
          drive (ClientMove.gen_done_arrives e) (from_wire rest _ refl l)

  pub from_collecting :
      (m k : ℕ)
      → m + k ≡ n
      → (s : System T) → Sound n sizes s
      → s.server.pc ≡ ServerPc.collecting k
      → CanEnd n sizes s
  from_collecting zero k h s a e =
      server_on n sizes (ServerMove.all_collected (e ∙ ap ServerPc.collecting (omega arith))) a
        (λ b. from_draining _ b refl)
  from_collecting (suc m) k h s a e =
      let lt : k < n = omega arith in
      from_wire k lt
        (λ c p t b f g.
          exchange_on n sizes k lt
            (Exchange.collect f
              (told_of k lt t b f (subst (λ (d : Client T). d.pc ≡ ClientPc.finished) (sym g) p)))
            b (λ d. from_collecting m (suc k) (omega arith) _ d refl))
        (s.client k).wire (s.client k) refl ((at_place e a.phase).clients k lt).side s a e refl
