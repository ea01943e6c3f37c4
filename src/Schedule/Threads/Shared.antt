-- ===== src/Schedule/Threads/Shared.antt =====
-- The threads of a rank delete the schedule once, and the last of them does.
use simple_parallel.Prelude.{
  ℕ, zero, suc, ◌≤◌, ◌<◌, ◌≡◌, refl, sym, ap, subst, List, [], arith, ◌==◌, Bool-cases, ==→eq, inl,
  inr, ◌↔◌,
}
use simple_parallel.Prelude.Family.{put, total, total-put}
use simple_parallel.Schedule.Threads.{
  IndexLoop, ThreadPc, Thread, Team, ThreadStep, TeamReach, begun, later,
}

module _ {T I : Type 0} where
  abbrev counts : ThreadPc T I → ℕ
  counts ThreadPc.left = 0
  counts _ = 1

  -- Whether a thread has not left yet, as a number.
  abbrev inside : Thread T I → ℕ
  inside th = counts th.pc

  -- Behind the loop.
  abbrev pub Behind : ThreadPc T I → Type 0
  Behind ThreadPc.ended = Unit
  Behind ThreadPc.left = Unit
  Behind _ = ⊥

  counts-left : (pc : ThreadPc T I) → counts pc ≡ 0 → pc ≡ ThreadPc.left
  counts-left ThreadPc.left e = refl
  counts-left ThreadPc.asking e = absurd (omega arith)
  counts-left (ThreadPc.running t i) e = absurd (omega arith)
  counts-left ThreadPc.ended e = absurd (omega arith)

  total-inside : (n : ℕ) (th : Thread T I) → inside th ≡ 1 → total inside n (λ _. th) ≡ n
  unfolding total
  total-inside zero th e = refl
  total-inside (suc n) th e = omega (arith, e, total-inside n th e)

  none_inside :
      (n : ℕ) (f : ℕ → Thread T I)
      → total inside n f ≡ 0
      → (i : ℕ) → i < n
      → (f i).pc ≡ ThreadPc.left
  unfolding total
  none_inside zero f e i lt = absurd (omega arith)
  none_inside (suc n) f e i lt = elim (Bool-cases (n == i)) [
    | inl same ↦
        subst (λ k. (f k).pc ≡ ThreadPc.left) (==→eq n i same) (counts-left (f n).pc (omega arith))
    | inr other ↦ none_inside n f (omega arith) i (ground arith)
  ]

  -- The count is that of the threads inside, and the schedule is deleted with the last of them.
  record Counted (n : ℕ) (s : Team T I) : Type 0 where
    count : s.num_threads_count ≡ total inside n s.thread
    living : 0 < s.num_threads_count → s.deletions ≡ 0
    dead : s.num_threads_count ≡ 0 → s.deletions ≡ 1

  -- A thread that stays inside.
  stays :
      (n i : ℕ) (s : Team T I) (c : Thread T I) (tasks : List T)
      → i < n
      → inside c ≡ inside (s.thread i)
      → Counted n s
      → Counted n (record s { tasks = tasks; thread = put s.thread i c })
  stays n i s c tasks lt e v = record {
    count = omega (arith, v.count, e, total-put inside n i s.thread c lt);
    living = v.living;
    dead = v.dead;
  }

  ThreadStep-Counted :
      {loop : IndexLoop T I} (n i : ℕ) {s t : Team T I}
      → i < n
      → ThreadStep loop i s t
      → Counted n s
      → Counted n t
  ThreadStep-Counted n i {s} lt (ThreadStep.take {rest = rest} e f) v =
      stays n i s _ rest lt (ap counts (sym e)) v
  ThreadStep-Counted n i {s} lt (ThreadStep.see_done e f) v =
      stays n i s _ s.tasks lt (ap counts (sym e)) v
  ThreadStep-Counted n i {s} lt (ThreadStep.body e f) v =
      stays n i s _ s.tasks lt (ap counts (sym e)) v
  ThreadStep-Counted n i {s} lt (ThreadStep.task_over e f) v =
      stays n i s _ s.tasks lt (ap counts (sym e)) v
  ThreadStep-Counted n i {s} lt (ThreadStep.leave_last e f) v =
      let c = record (s.thread i) { pc = ThreadPc.left } in
      let was : inside (s.thread i) ≡ 1 = ap counts e in
      let sum = total-put inside n i s.thread c lt in
      record {
        count = omega (arith, v.count, was, sum);
        living = λ h. absurd (omega arith);
        dead = λ h. omega (arith, v.living (omega (arith, v.count, was, sum)));
      }
  ThreadStep-Counted n i {s} lt (ThreadStep.leave e f) v =
      let c = record (s.thread i) { pc = ThreadPc.left } in
      let was : inside (s.thread i) ≡ 1 = ap counts e in
      let sum = total-put inside n i s.thread c lt in
      record {
        count = omega (arith, v.count, was, sum);
        living = λ h. v.living (omega arith);
        dead = λ h. absurd (f h);
      }

  TeamReach-Counted :
      {loop : IndexLoop T I} {n : ℕ} {tasks : List T} {s : Team T I}
      → 0 < n
      → TeamReach loop n tasks s
      → Counted n s
  TeamReach-Counted {n = n} pos begun = record {
    count = sym (total-inside n (record { pc = ThreadPc.asking; ran = [] }) refl);
    living = λ h. refl;
    dead = λ h. absurd (omega arith);
  }
  TeamReach-Counted {n = n} pos (later i r lt st) =
      ThreadStep-Counted n i lt st (TeamReach-Counted pos r)

  all_left :
      (n : ℕ) (f : ℕ → Thread T I)
      → ((i : ℕ) → i < n → (f i).pc ≡ ThreadPc.left)
      → total inside n f ≡ 0
  unfolding total
  all_left zero f h = refl
  all_left (suc n) f h =
      omega (arith, ap counts (h n (omega arith)), all_left n f (λ i lt. h i (omega arith)))

  -- However the threads are interleaved: the schedule is deleted at most once; while it is deleted
  -- every thread has left, so that none uses it any more; and when every thread has left, it is.
  -- There is at least one thread.
  pub deleted_by_last :
      {loop : IndexLoop T I} {n : ℕ} {tasks : List T} {s : Team T I}
      → 0 < n
      → TeamReach loop n tasks s
      → (s.deletions ≤ 1)
        × ((0 < s.deletions) ↔ ((i : ℕ) → i < n → (s.thread i).pc ≡ ThreadPc.left))
  deleted_by_last {n = n} {s = s} pos r =
      let v = TeamReach-Counted pos r in
      elim (Bool-cases (s.num_threads_count == 0)) [
        | inl zero_left ↦
            let z : s.num_threads_count ≡ 0 = ==→eq _ _ zero_left in
            let d = v.dead z in
            (
              omega (arith, d),
              ((λ h. none_inside n s.thread (omega (arith, v.count, z))), λ h. omega (arith, d)),
            )
        | inr some_left ↦
            let p : 0 < s.num_threads_count = ground arith in
            let d = v.living p in
            (
              omega (arith, d),
              (
                (λ h. absurd (omega (arith, d))),
                λ h. absurd (omega (arith, v.count, p, all_left n s.thread h)),
              ),
            )
      ]
