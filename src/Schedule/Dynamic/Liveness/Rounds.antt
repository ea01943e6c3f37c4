-- ===== src/Schedule/Dynamic/Liveness/Rounds.antt =====
-- The rounds of the leader of include/simple_parallel/cxx/dynamic_schedule.h can be left: what
-- remains of the range is given out, and every client is told.
use simple_parallel.Prelude.{
  ℕ, zero, suc, ◌+◌, ◌≤◌, ◌<◌, true, false, List, [], ◌∷◌, ◌≡◌, ◌∙◌, refl, sym, ap, subst, arith,
  inl, inr, Bool-cases, ◌==◌, ==→eq, ◌-◌,
}
use simple_parallel.Prelude.Family.{put}
use simple_parallel.Schedule.Dynamic.Server.{ServerPc, ServerMove, Exchange, all_handled}
use simple_parallel.Schedule.Dynamic.System.{System}
use simple_parallel.Schedule.Dynamic.Liveness.{CanEnd, Sound, server_on, exchange_on}
use simple_parallel.Schedule.Dynamic.Liveness.Cleanup.{from_collecting}

-- The test of the outer loop holds when no client has a request left.
all_zero : (n : ℕ) (left : ℕ → ℕ) → ((i : ℕ) → i < n → left i ≡ 0) → all_handled n left ≡ true
unfolding all_handled
all_zero zero left h = refl
all_zero (suc n) left h =
    ground (arith, h n (omega arith), all_zero n left (λ i lt. h i (omega arith)))

module _ {T : Type 0} (n : ℕ) (sizes : ℕ → ℕ) where
  pub from_notifying :
      (m k : ℕ)
      → m + k ≡ n
      → (s : System T) → Sound n sizes s
      → s.server.pc ≡ ServerPc.notifying k
      → CanEnd n sizes s
  from_notifying zero k h s a e =
      server_on n sizes (ServerMove.all_notified (e ∙ ap ServerPc.notifying (omega arith))) a
        (λ b. from_collecting n sizes n 0 (omega arith) _ b refl)
  from_notifying (suc m) k h s a e =
      exchange_on n sizes k (omega arith) (Exchange.tell e) a
        (λ b. from_notifying m (suc k) (omega arith) _ b refl)

  pub from_handling :
      (iter : List T) (s : System T)
      → Sound n sizes s
      → s.server.pc ≡ ServerPc.handling
      → s.server.iter ≡ iter
      → CanEnd n sizes s
  from_handling [] s a e f =
      server_on n sizes (ServerMove.all_generated e f) a
        (λ b. from_notifying n 0 (omega arith) _ b refl)
  from_handling (t ∷ rest) s a e f =
      server_on n sizes (ServerMove.yield e f) a
        (λ b. server_on n sizes (ServerMove.next refl f) b (λ c. from_handling rest _ c refl refl))

  -- The first round reaches its end, or a client that it answers.
  module _ (iter : List T) (left : ℕ → ℕ) where
    abbrev Here : ℕ → Type 0
    Here k =
        (s : System T)
        → Sound n sizes s
        → s.server.pc ≡ ServerPc.first_time left k
        → s.server.iter ≡ iter
        → CanEnd n sizes s

    -- Nothing is left to answer of the clients from one on and before another.
    abbrev Nothing : ℕ → ℕ → Type 0
    Nothing from k = (i : ℕ) → from ≤ i → i < k → left i ≡ 0

    one_more-Nothing : (from k : ℕ) → left k ≡ 0 → Nothing from k → Nothing from (suc k)
    one_more-Nothing from k e zeros i h0 h1 = elim (Bool-cases (i == k)) [
      | inl same ↦ ap left (==→eq i k same) ∙ e
      | inr other ↦ zeros i h0 (ground arith)
    ]

    module _ (hit : (k j : ℕ) → k < n → left k ≡ suc j → Here k) where
      scan :
          (from : ℕ) → (Nothing from n → Here n) → (m k : ℕ) → m + k ≡ n → Nothing from k → Here k
      scan from last zero k h zeros =
          let same : k ≡ n = omega arith in
          subst Here (sym same) (last (subst (Nothing from) same zeros))
      scan from last (suc m) k h zeros =
          by_size (left k) refl (scan from last m (suc k) (omega arith))
        where
          by_size : (size : ℕ) → left k ≡ size → (Nothing from (suc k) → Here (suc k)) → Here k
          by_size (suc j) e go = hit k j (omega arith) e
          by_size zero e go = λ s a f g.
              server_on n sizes (ServerMove.skip_client f (omega arith) e) a
                (λ b. go (one_more-Nothing from k e zeros) _ b refl g)

      -- A pass from the first client on, where a client has a request left.
      once_more : all_handled n left ≡ false → Here 0
      once_more h =
          scan 0 (λ zeros. absurd (cc (all_zero n left (λ i lt. zeros i (omega arith) lt)))) n 0
            (omega arith) (λ i h0 h1. absurd (omega arith))

      at_last : Here n
      at_last s a e f = elim (Bool-cases (all_handled n left)) [
        | inl h ↦
            server_on n sizes (ServerMove.all_answered e h) a (λ b. from_handling iter _ b refl f)
        | inr h ↦ server_on n sizes (ServerMove.round_over e h) a (λ b. once_more h _ b refl f)
      ]

      whole : (k : ℕ) → k ≤ n → Here k
      whole k le = scan k (λ _. at_last) (n - k) k (omega arith) (λ i h0 h1. absurd (omega arith))

  -- The rest of the first round, at any client.
  pub from_first : (iter : List T) (left : ℕ → ℕ) (k : ℕ) → k ≤ n → Here iter left k
  from_first [] left = whole [] left (λ i j lt e t a f g.
      server_on n sizes (ServerMove.ran_out f lt e g) a (λ b. from_handling [] _ b refl g))
  from_first (t ∷ rest) left = whole (t ∷ rest) left (λ i j lt e u a f g.
      exchange_on n sizes i lt (Exchange.answer f e g) a
        (λ b. from_first rest (put left i j) (suc i) lt _ b refl refl))
