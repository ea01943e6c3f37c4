-- ===== src/Schedule/Threads/Outlived.antt =====
-- `_num_threads_count` is a variable of the block of the thread that made the schedule; the other
-- threads reach it through `_num_threads_count_ptr`.
use simple_parallel.Prelude.{
  ℕ, ◌-◌, ◌≤◌, ◌<◌, ◌≡◌, ◌≢◌, refl, ◌∙◌, ap, true, false, List, [], ◌∷◌, arith, All, ◌==◌,
  Bool-cases, inl, inr,
}
use simple_parallel.Prelude.Family.{put}
use simple_parallel.Schedule.Threads.{
  IndexLoop, ThreadPc, Thread, Team, new_team, ThreadStep, TeamReach, begun, later,
}
use simple_parallel.Schedule.Threads.Once.{Visits, FitsTask, indices}

module _ {T I : Type 0} (loop : IndexLoop T I) (V : Visits loop) (n o j : ℕ) (all : List T)
    (two : 2 ≤ n) (lt_o : o < n) (lt_j : j < n) (apart : o ≢ j) where
  -- The owner of the count has left its block, and another thread is about to use it.
  pub record Outlived : Type 0 where
    pub team : Team T I
    pub reach : TeamReach loop n all team
    pub owner_left : (team.thread o).pc ≡ ThreadPc.left
    pub other_inside : (team.thread j).pc ≡ ThreadPc.ended

  at_o : (f : ℕ → Thread T I) (c : Thread T I) → put f o c o ≡ c
  at_o f c = let same : (o == o) ≡ true = ground arith in rw same refl

  at_j : (f : ℕ → Thread T I) (c : Thread T I) → put f o c j ≡ f j
  at_j f c = let other : (o == j) ≡ false = ground arith in rw other refl

  -- Only the owner has moved.
  record Alone (pc : ThreadPc T I) (tasks : List T) (s : Team T I) : Type 0 where
    reach : TeamReach loop n all s
    owner : (s.thread o).pc ≡ pc
    other : (s.thread j).pc ≡ ThreadPc.asking
    count : s.num_threads_count ≡ n
    rest : s.tasks ≡ tasks

  -- A step of the owner that leaves the count alone.
  moved :
      {p : ThreadPc T I} {tasks : List T} {s : Team T I} (c : Thread T I) (tasks' : List T)
      {left : List T}
      → Alone p tasks s
      → tasks' ≡ left
      → ThreadStep loop o s (record s { tasks = tasks'; thread = put s.thread o c })
      → Alone c.pc left (record s { tasks = tasks'; thread = put s.thread o c })
  moved {s = s} c tasks' a same st = record {
    reach = later o a.reach lt_o st;
    owner = ap (λ (d : Thread T I). d.pc) (at_o s.thread c);
    other = ap (λ (d : Thread T I). d.pc) (at_j s.thread c) ∙ a.other;
    count = a.count;
    rest = same;
  }

  -- The owner finds no task, leaves, and the other thread finds none either.
  leaves : (s : Team T I) → Alone ThreadPc.asking [] s → Outlived
  leaves s a =
      let c1 = record (s.thread o) { pc = ThreadPc.ended } in
      let s1 = record s { thread = put s.thread o c1 } in
      let a1 : Alone ThreadPc.ended s.tasks s1 =
        moved c1 s.tasks a refl (ThreadStep.see_done a.owner a.rest) in
      let c2 = record (s1.thread o) { pc = ThreadPc.left } in
      let s2 = record s1 {
        num_threads_count = s1.num_threads_count - 1;
        thread = put s1.thread o c2;
      } in
      let r2 : TeamReach loop n all s2 =
        later o a1.reach lt_o (ThreadStep.leave a1.owner (λ h. absurd (omega (arith, a1.count)))) in
      let asks : (s2.thread j).pc ≡ ThreadPc.asking =
        ap (λ (d : Thread T I). d.pc) (at_j s1.thread c2) ∙ a1.other in
      let c3 = record (s2.thread j) { pc = ThreadPc.ended } in
      record {
        team = record s2 { thread = put s2.thread j c3 };
        reach = later j r2 lt_j (ThreadStep.see_done asks (a1.rest ∙ a.rest));
        owner_left =
            let other : (j == o) ≡ false = ground arith in
            rw other (ap (λ (d : Thread T I). d.pc) (at_o s1.thread c2));
        other_inside = let same : (j == j) ≡ true = ground arith in rw same refl;
      }

  stops :
      (t : T) (ix : I) (tasks : List T) (s : Team T I)
      → loop.more t ix ≡ false
      → ((u : Team T I) → Alone ThreadPc.asking tasks u → Outlived)
      → Alone (ThreadPc.running t ix) tasks s
      → Outlived
  stops t ix tasks s stop go a = go _ (
      moved (record (s.thread o) { pc = ThreadPc.asking }) s.tasks a a.rest
        (ThreadStep.task_over a.owner stop))

  -- The owner goes through a task.
  runs :
      (visited : List I) (t : T) (ix : I) (tasks : List T) (s : Team T I)
      → V.Fits t ix
      → V.visits t ix ≡ visited
      → ((u : Team T I) → Alone ThreadPc.asking tasks u → Outlived)
      → Alone (ThreadPc.running t ix) tasks s
      → Outlived
  runs [] t ix tasks s fits e go a = elim (Bool-cases (loop.more t ix)) [
    | inr stop ↦ stops t ix tasks s stop go a
    | inl more ↦ absurd (cc ((V.goes t ix fits more).0))
  ]
  runs (i ∷ is) t ix tasks s fits e go a = elim (Bool-cases (loop.more t ix)) [
    | inr stop ↦ stops t ix tasks s stop go a
    | inl more ↦
        let rest : V.visits t (loop.advance ix) ≡ is = cc ((V.goes t ix fits more).0) in
        runs is t (loop.advance ix) tasks _ (V.goes t ix fits more).1 rest go (
          moved (record { pc = ThreadPc.running t (loop.advance ix); ran = ix ∷ (s.thread o).ran })
            s.tasks a a.rest (ThreadStep.body a.owner more))
  ]

  -- The owner goes through all tasks.
  goes_on :
      (tasks : List T) (s : Team T I)
      → All (FitsTask loop V) tasks
      → Alone ThreadPc.asking tasks s
      → Outlived
  goes_on [] s fit a = leaves s a
  goes_on (t ∷ ts) s fit a =
      runs (indices loop V t) t (loop.first t) ts _ fit.0 refl (λ u b. goes_on ts u fit.1 b)
        (moved (record (s.thread o) { pc = ThreadPc.running t (loop.first t) }) ts a refl
          (ThreadStep.take a.owner a.rest))

  -- With two threads or more, whichever thread made the schedule: a state can be reached in which that
  -- thread has left the block, and with it the count that is its variable, while another thread is
  -- about to decrement the count. The loop over a task visits the task's indices.
  pub count_outlived : All (FitsTask loop V) all → Outlived
  count_outlived fit =
      goes_on all (new_team n all) fit
        (record { reach = begun; owner = refl; other = refl; count = refl; rest = refl })
