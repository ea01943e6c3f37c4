-- ===== src/Schedule/Dynamic/Bound.antt =====
-- How many requests and values of one client are under way at once.
pub mod Reached
use simple_parallel.Prelude.{
  ℕ, zero, suc, ◌+◌, ◌-◌, ◌*◌, ◌≤◌, ◌<◌, ◌≡◌, ◌≢◌, refl, ◌∙◌, sym, ap, subst, Bool, true, false,
  List, [], ◌∷◌, ◌++◌, arith, length, length-append, ◌==◌, Bool-cases, inl, inr, ==→eq,
  if◌then◌else◌,
}
use simple_parallel.Prelude.Family.{put, put_all}
use simple_parallel.Schedule.Dynamic.Client.{
  Client, ClientPc, ClientMove, Message, server_send_val, val_gen_done, new_client,
}
use simple_parallel.Schedule.Dynamic.Server.{Server, ServerPc, ServerMove, Exchange}
use simple_parallel.Schedule.Dynamic.System.{System, Step, Reach, start, later}
use simple_parallel.Schedule.Dynamic.Phase.{Side, ClientPhase}
use simple_parallel.Schedule.Dynamic.Phase.Kept.{SystemPhase, Reach-Phase}

-- The requests that the constructor has yet to send.
abbrev pub to_send : ClientPc → ℕ
to_send (ClientPc.requesting k) = k
to_send _ = 0

module _ {T : Type 0} where
  -- The values among the messages on the way.
  unfoldable pub values_of : List (Message T) → ℕ
  values_of [] = 0
  values_of (server_send_val t ∷ ms) = suc (values_of ms)
  values_of (val_gen_done ∷ ms) = values_of ms

  pub values_of-append :
      (ms ns : List (Message T)) → values_of (ms ++ ns) ≡ values_of ms + values_of ns
  unfolding values_of
  values_of-append [] ns = omega arith
  values_of-append (server_send_val t ∷ ms) ns = omega (arith, values_of-append ms ns)
  values_of-append (val_gen_done ∷ ms) ns = values_of-append ms ns

  -- The requests that the leader has not received, and the values that the client has not received.
  abbrev pub under_way : Client T → ℕ
  under_way c = c.asked + values_of c.wire + length c.inbox

  -- The bound by the leader's place, for client `i` with a buffer of `size`.
  abbrev pub Quota : ServerPc → ℕ → ℕ → Client T → Type 0
  Quota ServerPc.at_barrier i size c = under_way c + to_send c.pc ≤ size
  Quota (ServerPc.first_time left k) i size c = under_way c + left i ≤ 2 * size
  Quota _ i size c = under_way c ≤ 2 * size

  -- A client's step that sends no request of the constructor.
  late-Quota :
      (pc : ServerPc) (i size : ℕ) (c c' : Client T)
      → under_way c' + to_send c'.pc ≤ under_way c + to_send c.pc
      → under_way c' ≤ under_way c
      → Quota pc i size c
      → Quota pc i size c'
  late-Quota ServerPc.at_barrier i size c c' e f h = omega (arith, e, h)
  late-Quota (ServerPc.first_time left k) i size c c' e f h = omega (arith, f, h)
  late-Quota ServerPc.handling i size c c' e f h = omega (arith, f, h)
  late-Quota ServerPc.with_value i size c c' e f h = omega (arith, f, h)
  late-Quota (ServerPc.notifying k) i size c c' e f h = omega (arith, f, h)
  late-Quota (ServerPc.collecting k) i size c c' e f h = omega (arith, f, h)
  late-Quota ServerPc.draining i size c c' e f h = omega (arith, f, h)
  late-Quota ServerPc.finished i size c c' e f h = omega (arith, f, h)

  -- A request of the constructor, which is sent before the barrier.
  request-Quota :
      (pc : ServerPc) (i size k : ℕ) (c : Client T)
      → c.pc ≡ ClientPc.requesting (suc k)
      → Side pc (ClientPc.requesting (suc k))
      → Quota pc i size c
      → Quota pc i size (record c { pc = ClientPc.requesting k; asked = c.asked + 1 })
  request-Quota ServerPc.at_barrier i size k c e s h = omega (arith, h, ap to_send e)
  request-Quota (ServerPc.first_time left j) i size k c e s h = absurd s
  request-Quota ServerPc.handling i size k c e s h = absurd s
  request-Quota ServerPc.with_value i size k c e s h = absurd s
  request-Quota (ServerPc.notifying j) i size k c e s h = absurd s
  request-Quota (ServerPc.collecting j) i size k c e s h = absurd s
  request-Quota ServerPc.draining i size k c e s h = absurd s
  request-Quota ServerPc.finished i size k c e s h = absurd s

  pub ClientMove-Quota :
      (pc : ServerPc) (i size : ℕ) (c c' : Client T)
      → ClientPhase pc i c
      → ClientMove c c'
      → Quota pc i size c
      → Quota pc i size c'
  unfolding values_of
  ClientMove-Quota pc i size c c' p (ClientMove.request {k = k} e) h =
      request-Quota pc i size k c e (subst (Side pc) e p.side) h
  ClientMove-Quota pc i size c c' p (ClientMove.enter_barrier e) h =
      late-Quota pc i size c c' (omega arith) (omega arith) h
  ClientMove-Quota pc i size c c' p (ClientMove.take {rest = rest} e f) h =
      let one : length c.inbox ≡ suc (length rest) = ap length f in
      late-Quota pc i size c c' (omega (arith, one)) (omega (arith, one)) h
  ClientMove-Quota pc i size c c' p (ClientMove.none_yet e f) h =
      late-Quota pc i size c c' (omega arith) (omega arith) h
  ClientMove-Quota pc i size c c' p (ClientMove.known e f) h =
      late-Quota pc i size c c' (omega arith) (omega arith) h
  ClientMove-Quota pc i size c c' p (ClientMove.learn e f g) h =
      late-Quota pc i size c c' (omega arith) (omega arith) h
  ClientMove-Quota pc i size c c' p (ClientMove.go_on e f g) h =
      late-Quota pc i size c c' (omega arith) (omega arith) h
  ClientMove-Quota pc i size c c' p (ClientMove.take_late {rest = rest} e f) h =
      let one : length c.inbox ≡ suc (length rest) = ap length f in
      late-Quota pc i size c c' (omega (arith, one)) (omega (arith, one)) h
  ClientMove-Quota pc i size c c' p (ClientMove.stop e f) h =
      late-Quota pc i size c c' (omega arith) (omega arith) h
  ClientMove-Quota pc i size c c' p (ClientMove.next e) h =
      late-Quota pc i size c c' (omega arith) (omega arith) h
  ClientMove-Quota pc i size c c' p (ClientMove.value_arrives {t = t} {rest = rest} e) h =
      let one : values_of c.wire ≡ suc (values_of rest) = ap values_of e in
      let more : length (c.inbox ++ t ∷ []) ≡ length c.inbox + 1 = length-append c.inbox (t ∷ []) in
      late-Quota pc i size c c' (omega (arith, one, more)) (omega (arith, one, more)) h
  ClientMove-Quota pc i size c c' p (ClientMove.gen_done_arrives {rest = rest} e) h =
      let same : values_of c.wire ≡ values_of rest = ap values_of e in
      late-Quota pc i size c c' (omega (arith, same)) (omega (arith, same)) h
