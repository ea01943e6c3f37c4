-- ===== src/Schedule/Dynamic/Conserve.antt =====
-- No step of the dynamic schedule loses a value or makes one up.
use simple_parallel.Prelude.{ℕ, ◌+◌, List, [], ◌∷◌, ◌++◌, ◌≡◌, refl, arith}
use simple_parallel.Prelude.Family.{total, total-put, total-ext, total-eq-zero}
use simple_parallel.Schedule.Dynamic.Client.{
  Client, ClientPc, ClientMove, new_client, Message, server_send_val, val_gen_done,
}
use simple_parallel.Schedule.Dynamic.Server.{Server, ServerPc, ServerMove, Exchange}
use simple_parallel.Schedule.Dynamic.System.{System, Step, Reach, start, later}

module _ {T : Type 0} (weight : T → ℕ) where
  unfoldable pub sum_of : List T → ℕ
  sum_of [] = 0
  sum_of (t ∷ ts) = weight t + sum_of ts

  unfoldable pub sum_of_wire : List (Message T) → ℕ
  sum_of_wire [] = 0
  sum_of_wire (server_send_val t ∷ ms) = weight t + sum_of_wire ms
  sum_of_wire (val_gen_done ∷ ms) = sum_of_wire ms

  sum_of-append : (ts us : List T) → sum_of (ts ++ us) ≡ sum_of ts + sum_of us
  unfolding sum_of
  sum_of-append [] us = omega arith
  sum_of-append (t ∷ ts) us = omega (arith, sum_of-append ts us)

  sum_of_wire-append :
      (ms ns : List (Message T)) → sum_of_wire (ms ++ ns) ≡ sum_of_wire ms + sum_of_wire ns
  unfolding sum_of_wire
  sum_of_wire-append [] ns = omega arith
  sum_of_wire-append (server_send_val t ∷ ms) ns = omega (arith, sum_of_wire-append ms ns)
  sum_of_wire-append (val_gen_done ∷ ms) ns = omega (arith, sum_of_wire-append ms ns)

  -- What a client has got, or will.
  unfoldable pub held : Client T → ℕ
  held c = sum_of_wire c.wire + sum_of c.inbox + sum_of c.got

  unfoldable pub kept : Server T → ℕ
  kept s = sum_of s.iter + sum_of s.got

  unfoldable pub load : ℕ → System T → ℕ
  load n s = kept s.server + total held n s.client

  ClientMove-held : {c c' : Client T} → ClientMove c c' → held c' ≡ held c
  unfolding held sum_of sum_of_wire
  ClientMove-held (ClientMove.request e) = refl
  ClientMove-held (ClientMove.enter_barrier e) = refl
  ClientMove-held (ClientMove.take e i) = ground arith
  ClientMove-held (ClientMove.none_yet e i) = refl
  ClientMove-held (ClientMove.known e f) = refl
  ClientMove-held (ClientMove.learn e f g) = refl
  ClientMove-held (ClientMove.go_on e f g) = refl
  ClientMove-held (ClientMove.take_late e i) = ground arith
  ClientMove-held (ClientMove.stop e i) = refl
  ClientMove-held (ClientMove.next e) = refl
  ClientMove-held {c} (ClientMove.value_arrives {t = t} e) =
      ground (arith, sum_of-append c.inbox (t ∷ []))
  ClientMove-held (ClientMove.gen_done_arrives e) = ground arith

  ServerMove-kept : {n : ℕ} {s s' : Server T} → ServerMove n s s' → kept s' ≡ kept s
  unfolding kept sum_of
  ServerMove-kept (ServerMove.round_over e f) = refl
  ServerMove-kept (ServerMove.all_answered e f) = refl
  ServerMove-kept (ServerMove.skip_client e f g) = refl
  ServerMove-kept (ServerMove.ran_out e f g h) = refl
  ServerMove-kept (ServerMove.yield e f) = refl
  ServerMove-kept (ServerMove.all_generated e f) = refl
  ServerMove-kept (ServerMove.next e f) = ground arith
  ServerMove-kept (ServerMove.all_notified e) = refl
  ServerMove-kept (ServerMove.all_collected e) = refl
  ServerMove-kept (ServerMove.drained e) = refl

  Exchange-held :
      {capacity i : ℕ} {s s' : Server T} {c c' : Client T}
      → Exchange capacity i s c s' c'
      → kept s' + held c' ≡ kept s + held c
  unfolding kept held sum_of sum_of_wire
  Exchange-held {c = c} (Exchange.answer {t = t} e f g) =
      ground (arith, sum_of_wire-append c.wire (server_send_val t ∷ []))
  Exchange-held {c = c} (Exchange.serve {t = t} d k e f g h) =
      ground (arith, sum_of_wire-append c.wire (server_send_val t ∷ []))
  Exchange-held {c = c} (Exchange.tell e) =
      ground (arith, sum_of_wire-append c.wire (val_gen_done ∷ []))
  Exchange-held (Exchange.collect e f) = refl
  Exchange-held (Exchange.drain k e f) = refl

  released :
      (n : ℕ) (f : ℕ → Client T)
      → total held n (λ i. record (f i) { pc = ClientPc.probing }) ≡ total held n f
  unfolding held
  released n f = total-ext held n (λ i. record (f i) { pc = ClientPc.probing }) f (λ i lt. refl)

  kept_at : (pc : ServerPc) (s : Server T) → kept (record s { pc = pc }) ≡ kept s
  unfolding kept
  kept_at pc s = refl

  Step-load : {n : ℕ} {sizes : ℕ → ℕ} {s t : System T} → Step n sizes s t → load n t ≡ load n s
  unfolding load
  Step-load {n} {s = s} (Step.by_client {c = c} i lt mv) =
      omega (arith, ClientMove-held mv, total-put held n i s.client c lt)
  Step-load (Step.by_server mv) = omega (arith, ServerMove-kept mv)
  Step-load {n} {s = s} (Step.exchange {c = c} i lt x) =
      omega (arith, Exchange-held x, total-put held n i s.client c lt)
  Step-load {n} {sizes} {s = s} (Step.barrier e f) =
      omega (arith, released n s.client, kept_at (ServerPc.first_time sizes n) s.server)

  new-held : (k : ℕ) → held (new_client k) ≡ 0
  unfolding held sum_of sum_of_wire
  new-held k = refl

  pub Reach-load :
      {n : ℕ} {sizes : ℕ → ℕ} {range : List T} {s : System T}
      → Reach n sizes range s
      → load n s ≡ sum_of range
  unfolding load kept sum_of
  Reach-load {n} {sizes} start =
      omega (arith, total-eq-zero held n (λ i. new_client (sizes i)) (λ i. new-held (sizes i)))
  Reach-load (later r st) = omega (arith, Step-load st, Reach-load r)
