-- ===== src/Schedule/Dynamic/Liveness/Finish.antt =====
-- From every reachable state the dynamic schedule can come to its end.
use simple_parallel.Prelude.{
  ℕ, zero, suc, ◌+◌, ◌≤◌, ◌<◌, false, List, [], ◌∷◌, ◌≡◌, ◌≢◌, refl, ap, subst, arith, inl, inr,
  Bool-cases, ◌==◌, ==→eq, ◌-◌,
}
use simple_parallel.Prelude.Family.{put, total}
use simple_parallel.Schedule.Dynamic.Client.{Client, ClientPc, ClientMove}
use simple_parallel.Schedule.Dynamic.Server.{ServerPc, ServerMove}
use simple_parallel.Schedule.Dynamic.System.{System, Step, Reach}
use simple_parallel.Schedule.Dynamic.Conserve.{sum_of}
use simple_parallel.Schedule.Dynamic.Invariant.{Ended}
use simple_parallel.Schedule.Dynamic.Completion.{each_value_once}
use simple_parallel.Schedule.Dynamic.Phase.{Early}
use simple_parallel.Schedule.Dynamic.Phase.Kept.{at_place}
use simple_parallel.Schedule.Dynamic.Liveness.{
  Leads, stay, CanEnd, Sound, Reach-Sound, Reach-Leads, step_on, server_on, client_on,
}
use simple_parallel.Schedule.Dynamic.Liveness.Cleanup.{from_draining, from_collecting, put_same}
use simple_parallel.Schedule.Dynamic.Liveness.Rounds.{from_notifying, from_handling, from_first}

-- The first `k` clients stay where they are when another one is put, and one more is there.
abbrev AllAt : {T : Type 0} → ℕ → (ℕ → Client T) → Type 0
AllAt k client = (i : ℕ) → i < k → (client i).pc ≡ ClientPc.at_barrier

put-AllAt :
    {T : Type 0} (k : ℕ) (client : ℕ → Client T) (c : Client T)
    → AllAt k client
    → AllAt k (put client k c)
put-AllAt k client c h i lt = let other : (k == i) ≡ false = ground arith in rw other (h i lt)

one_more :
    {T : Type 0} (k : ℕ) (client : ℕ → Client T)
    → (client k).pc ≡ ClientPc.at_barrier
    → AllAt k client
    → AllAt (suc k) client
one_more k client e h i lt = elim (Bool-cases (k == i)) [
  | inl same ↦ subst (λ j. (client j).pc ≡ ClientPc.at_barrier) (==→eq k i same) e
  | inr other ↦ h i (ground arith)
]

module _ {T : Type 0} (n : ℕ) (sizes : ℕ → ℕ) where
  -- Client `k` sends its requests and comes to the barrier.
  enter :
      (k : ℕ)
      → ((s : System T)
          → Sound n sizes s
          → s.server.pc ≡ ServerPc.at_barrier
          → AllAt (suc k) s.client
          → CanEnd n sizes s)
      → k < n
      → (pc : ClientPc) (s : System T) → Early pc
      → Sound n sizes s
      → s.server.pc ≡ ServerPc.at_barrier
      → AllAt k s.client
      → (s.client k).pc ≡ pc
      → CanEnd n sizes s
  enter k go lt (ClientPc.requesting zero) s early a e here f =
      client_on n sizes k lt (ClientMove.enter_barrier f) a (λ b. go _ b e (
        let c = record (s.client k) { pc = ClientPc.at_barrier } in
        one_more k (put s.client k c) (ap (λ (d : Client T). d.pc) (put_same s.client k c))
          (put-AllAt k s.client c here)))
  enter k go lt (ClientPc.requesting (suc r)) s early a e here f =
      client_on n sizes k lt (ClientMove.request f) a (λ b.
        enter k go lt (ClientPc.requesting r) _ tt b e (put-AllAt k s.client _ here)
          (ap (λ (c : Client T). c.pc) (put_same s.client k _)))
  enter k go lt ClientPc.at_barrier s early a e here f = go s a e (one_more k s.client f here)
  enter k go lt ClientPc.probing s early a e here f = absurd early
  enter k go lt ClientPc.checking s early a e here f = absurd early
  enter k go lt ClientPc.rechecking s early a e here f = absurd early
  enter k go lt ClientPc.with_value s early a e here f = absurd early
  enter k go lt ClientPc.finished s early a e here f = absurd early

  from_barrier :
      (m k : ℕ)
      → m + k ≡ n
      → (s : System T) → Sound n sizes s
      → s.server.pc ≡ ServerPc.at_barrier
      → AllAt k s.client
      → CanEnd n sizes s
  from_barrier zero k h s a e here =
      step_on n sizes (Step.barrier e (λ i lt. here i (omega arith))) a
        (λ b. from_first n sizes s.server.iter sizes n (omega arith) _ b refl refl)
  from_barrier (suc m) k h s a e here =
      let lt : k < n = omega arith in
      enter k (from_barrier m (suc k) (omega arith)) lt (s.client k).pc s
        ((at_place e a.phase).clients k lt).side a e here refl

  from_with_value :
      (iter : List T) (s : System T)
      → iter ≢ []
      → Sound n sizes s
      → s.server.pc ≡ ServerPc.with_value
      → s.server.iter ≡ iter
      → CanEnd n sizes s
  from_with_value [] s some_left a e f = absurd (some_left refl)
  from_with_value (t ∷ rest) s some_left a e f =
      server_on n sizes (ServerMove.next e f) a (λ b. from_handling n sizes rest _ b refl refl)

  from_any : (pc : ServerPc) (s : System T) → Sound n sizes s → s.server.pc ≡ pc → CanEnd n sizes s
  from_any ServerPc.at_barrier s a e =
      from_barrier n 0 (omega arith) s a e (λ i lt. absurd (omega arith))
  from_any (ServerPc.first_time left k) s a e =
      from_first n sizes s.server.iter left k (at_place e a.phase).spot s a e refl
  from_any ServerPc.handling s a e = from_handling n sizes s.server.iter s a e refl
  from_any ServerPc.with_value s a e =
      from_with_value s.server.iter s (at_place e a.phase).spot a e refl
  from_any (ServerPc.notifying k) s a e =
      let le : k ≤ n = (at_place e a.phase).spot in
      from_notifying n sizes (n - k) k (omega arith) s a e
  from_any (ServerPc.collecting k) s a e =
      let le : k ≤ n = (at_place e a.phase).spot in
      from_collecting n sizes (n - k) k (omega arith) s a e
  from_any ServerPc.draining s a e = from_draining n sizes s a e
  from_any ServerPc.finished s a e = record { end = s; run = stay; finished = e }

  -- No reachable state is a dead end: whatever the interleaving so far, steps lead to a state in
  -- which the leader and all clients have ended, and in which the values that the ranks' loops got
  -- are those of the range, each as often as it stands there.
  pub can_finish :
      {range : List T} {s : System T}
      → Reach n sizes range s
      → (t : System T) × Leads n sizes s t
        × (t.server.pc ≡ ServerPc.finished)
        × Ended n t.client
        × ((weight : T → ℕ)
            → sum_of weight t.server.got + total (λ c. sum_of weight c.got) n t.client
              ≡ sum_of weight range)
  can_finish {s = s} r =
      let c = from_any s.server.pc s (Reach-Sound n sizes r) refl in
      let (ended, sums) = each_value_once (Reach-Leads n sizes r c.run) c.finished in
      (c.end, c.run, c.finished, ended, sums)
