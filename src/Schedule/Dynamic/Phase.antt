-- ===== src/Schedule/Dynamic/Phase.antt =====
-- Where the clients of the dynamic schedule can stand while the leader stands somewhere.
pub mod Kept
use simple_parallel.Prelude.{
  ℕ, zero, suc, ◌+◌, ◌≤◌, ◌<◌, Bool, true, false, List, [], ◌∷◌, ◌≡◌, ◌≢◌, refl, arith, ltb, ◌==◌,
  Bool-cases, ==→eq, subst, sym, inl, inr,
}
use simple_parallel.Prelude.Family.{put, put_all}
use simple_parallel.Schedule.Dynamic.Client.{Client, ClientPc, ClientMove, new_client}
use simple_parallel.Schedule.Dynamic.Server.{Server, ServerPc, ServerMove, Exchange}
use simple_parallel.Schedule.Dynamic.System.{System, Step, Reach, start, later}

-- Before the barrier.
abbrev pub Early : ClientPc → Type 0
Early (ClientPc.requesting k) = Unit
Early ClientPc.at_barrier = Unit
Early _ = ⊥

-- Behind it.
abbrev pub Late : ClientPc → Type 0
Late (ClientPc.requesting k) = ⊥
Late ClientPc.at_barrier = ⊥
Late _ = Unit

abbrev pub Side : ServerPc → ClientPc → Type 0
Side ServerPc.at_barrier pc = Early pc
Side _ pc = Late pc

-- Whether the leader has received the client's last message.
abbrev pub collected : ServerPc → ℕ → Bool
collected (ServerPc.collecting k) i = ltb i k
collected ServerPc.draining i = true
collected ServerPc.finished i = true
collected _ i = false

-- The client's place, and its last message, which waits until the leader has received it.
pub record ClientPhase {T : Type 0} (pc : ServerPc) (i : ℕ) (c : Client T) : Type 0 where
  pub side : Side pc c.pc
  pub told : collected pc i ≡ false → c.pc ≡ ClientPc.finished → c.told ≡ true

-- The leader's loops stay within the number of clients, and it has a value where it uses one.
abbrev pub Spot : {T : Type 0} → ℕ → ServerPc → List T → Type 0
Spot n (ServerPc.first_time sizes k) iter = k ≤ n
Spot n ServerPc.with_value iter = iter ≢ []
Spot n (ServerPc.notifying k) iter = k ≤ n
Spot n (ServerPc.collecting k) iter = k ≤ n
Spot n _ iter = Unit

pub record Phase {T : Type 0} (n : ℕ) (pc : ServerPc) (iter : List T) (client : ℕ → Client T)
    : Type 0 where
  pub spot : Spot n pc iter
  pub clients : (i : ℕ) → i < n → ClientPhase pc i (client i)

Side-Late : (pc : ServerPc) (p q : ClientPc) → Late q → (Early p → ⊥) → Side pc p → Side pc q
Side-Late ServerPc.at_barrier p q l not_p h = absurd (not_p h)
Side-Late (ServerPc.first_time sizes k) p q l not_p h = l
Side-Late ServerPc.handling p q l not_p h = l
Side-Late ServerPc.with_value p q l not_p h = l
Side-Late (ServerPc.notifying k) p q l not_p h = l
Side-Late (ServerPc.collecting k) p q l not_p h = l
Side-Late ServerPc.draining p q l not_p h = l
Side-Late ServerPc.finished p q l not_p h = l

Side-Early : (pc : ServerPc) (p q : ClientPc) → Early q → (Late p → ⊥) → Side pc p → Side pc q
Side-Early ServerPc.at_barrier p q l not_p h = l
Side-Early (ServerPc.first_time sizes k) p q l not_p h = absurd (not_p h)
Side-Early ServerPc.handling p q l not_p h = absurd (not_p h)
Side-Early ServerPc.with_value p q l not_p h = absurd (not_p h)
Side-Early (ServerPc.notifying k) p q l not_p h = absurd (not_p h)
Side-Early (ServerPc.collecting k) p q l not_p h = absurd (not_p h)
Side-Early ServerPc.draining p q l not_p h = absurd (not_p h)
Side-Early ServerPc.finished p q l not_p h = absurd (not_p h)

module _ {T : Type 0} where
  -- A move from a place behind the barrier to another one.
  behind :
      {pc : ServerPc} {i : ℕ} {c : Client T} (c' : Client T) (p : ClientPc)
      → c.pc ≡ p
      → (Early p → ⊥)
      → Late c'.pc
      → (c'.pc ≡ ClientPc.finished → c'.told ≡ true)
      → ClientPhase pc i c
      → ClientPhase pc i c'
  behind {pc} {c = c} c' p e not_p l t h = record {
    side = Side-Late pc p c'.pc l not_p (subst (Side pc) e h.side);
    told = λ _ q. t q;
  }

  pub ClientMove-Phase :
      (pc : ServerPc) (i : ℕ) (c c' : Client T)
      → ClientMove c c'
      → ClientPhase pc i c
      → ClientPhase pc i c'
  ClientMove-Phase pc i c c' (ClientMove.request {k = k} e) h = record {
    side =
        Side-Early pc (ClientPc.requesting (suc k)) (ClientPc.requesting k) tt (λ x. x)
          (subst (Side pc) e h.side);
    told = λ _ q. cc;
  }
  ClientMove-Phase pc i c c' (ClientMove.enter_barrier e) h = record {
    side =
        Side-Early pc (ClientPc.requesting 0) ClientPc.at_barrier tt (λ x. x)
          (subst (Side pc) e h.side);
    told = λ _ q. cc;
  }
  ClientMove-Phase pc i c c' (ClientMove.take e f) h =
      behind c' ClientPc.probing e (λ x. x) tt (λ q. cc) h
  ClientMove-Phase pc i c c' (ClientMove.none_yet e f) h =
      behind c' ClientPc.probing e (λ x. x) tt (λ q. cc) h
  ClientMove-Phase pc i c c' (ClientMove.known e f) h =
      behind c' ClientPc.checking e (λ x. x) tt (λ q. cc) h
  ClientMove-Phase pc i c c' (ClientMove.learn e f g) h =
      behind c' ClientPc.checking e (λ x. x) tt (λ q. cc) h
  ClientMove-Phase pc i c c' (ClientMove.go_on e f g) h =
      behind c' ClientPc.checking e (λ x. x) tt (λ q. cc) h
  ClientMove-Phase pc i c c' (ClientMove.take_late e f) h =
      behind c' ClientPc.rechecking e (λ x. x) tt (λ q. cc) h
  ClientMove-Phase pc i c c' (ClientMove.stop e f) h =
      behind c' ClientPc.rechecking e (λ x. x) tt (λ q. refl) h
  ClientMove-Phase pc i c c' (ClientMove.next e) h =
      behind c' ClientPc.with_value e (λ x. x) tt (λ q. cc) h
  ClientMove-Phase pc i c c' (ClientMove.value_arrives e) h = record {
    side = h.side;
    told = h.told;
  }
  ClientMove-Phase pc i c c' (ClientMove.gen_done_arrives e) h = record {
    side = h.side;
    told = h.told;
  }
