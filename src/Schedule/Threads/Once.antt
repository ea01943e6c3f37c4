-- ===== src/Schedule/Threads/Once.antt =====
-- The threads of a rank run the body once for each index of the rank's tasks.
use simple_parallel.Prelude.{
  ℕ, ◌+◌, ◌<◌, ◌≡◌, refl, sym, ap, subst, true, false, List, [], ◌∷◌, arith, All,
}
use simple_parallel.Prelude.Family.{put, put_all, total, total-put, total-weights, total-eq-zero}
use simple_parallel.Schedule.Dynamic.Conserve.{sum_of}
use simple_parallel.Schedule.Threads.{
  IndexLoop, ThreadPc, Thread, Team, ThreadStep, TeamReach, begun, later,
}
use simple_parallel.Schedule.Threads.Shared.{Behind}

-- The indices that the loop over a task goes through from an index on, where both fit together.
pub record Visits {T I : Type 0} (loop : IndexLoop T I) : Type 1 where
  pub Fits : T → I → Type 0
  pub visits : T → I → List I
  pub stops : (t : T) (ix : I) → Fits t ix → loop.more t ix ≡ false → visits t ix ≡ []
  pub goes :
      (t : T) (ix : I)
      → Fits t ix
      → loop.more t ix ≡ true
      → (visits t ix ≡ ix ∷ visits t (loop.advance ix)) × Fits t (loop.advance ix)

module _ {T I : Type 0} (loop : IndexLoop T I) (V : Visits loop) where
  abbrev pub FitsTask : T → Type 0
  FitsTask t = V.Fits t (loop.first t)

  -- All indices of a task.
  abbrev pub indices : T → List I
  indices t = V.visits t (loop.first t)

  abbrev pub FitsPc : ThreadPc T I → Type 0
  FitsPc (ThreadPc.running t ix) = V.Fits t ix
  FitsPc _ = Unit

  module _ (weight : I → ℕ) where
    abbrev pub of_task : T → ℕ
    of_task t = sum_of weight (indices t)

    abbrev pending : ThreadPc T I → ℕ
    pending (ThreadPc.running t ix) = sum_of weight (V.visits t ix)
    pending _ = 0

    abbrev load : Thread T I → ℕ
    load th = pending th.pc + sum_of weight th.ran

    record Kept (n : ℕ) (tasks : List T) (s : Team T I) : Type 0 where
      fit : All FitsTask s.tasks
      fit_pc : (i : ℕ) → i < n → FitsPc (s.thread i).pc
      behind : (i : ℕ) → i < n → Behind (s.thread i).pc → s.tasks ≡ []
      sum : sum_of of_task s.tasks + total load n s.thread ≡ sum_of of_task tasks

    -- A thread is put that has as much as the one before it, and neither starts nor ends a task.
    put-Kept :
        (n i : ℕ) (tasks : List T) (s : Team T I) (c : Thread T I)
        → i < n
        → FitsPc c.pc
        → (Behind c.pc → s.tasks ≡ [])
        → load c ≡ load (s.thread i)
        → Kept n tasks s
        → Kept n tasks (record s { thread = put s.thread i c })
    put-Kept n i tasks s c lt f b e v = record {
      fit = v.fit;
      fit_pc = put_all (λ j (d : Thread T I). FitsPc d.pc) n i s.thread c f v.fit_pc;
      behind = put_all (λ j (d : Thread T I). Behind d.pc → s.tasks ≡ []) n i s.thread c b v.behind;
      sum = omega (arith, v.sum, e, total-put load n i s.thread c lt);
    }

    -- A thread leaves, whatever becomes of the count.
    gone :
        (n i : ℕ) (tasks : List T) (s : Team T I) (count deletions : ℕ)
        → i < n
        → (s.thread i).pc ≡ ThreadPc.ended
        → Kept n tasks s
        → Kept n tasks (record s {
          num_threads_count = count;
          deletions = deletions;
          thread = put s.thread i (record (s.thread i) { pc = ThreadPc.left });
        })
    gone n i tasks s count deletions lt e v =
        let k =
          put-Kept n i tasks s (record (s.thread i) { pc = ThreadPc.left }) lt tt
            (λ _. v.behind i lt (subst Behind (sym e) tt)) (omega (arith, ap pending e)) v in
        record { fit = k.fit; fit_pc = k.fit_pc; behind = k.behind; sum = k.sum }

    ThreadStep-Kept :
        (n i : ℕ) (tasks : List T) {s t : Team T I}
        → i < n
        → ThreadStep loop i s t
        → Kept n tasks s
        → Kept n tasks t
    unfolding sum_of
    ThreadStep-Kept n i tasks {s} lt (ThreadStep.take {task = task} {rest = rest} e f) v =
        let c : Thread T I = record (s.thread i) { pc = ThreadPc.running task (loop.first task) } in
        let fits = subst (All FitsTask) f v.fit in
        record {
          fit = fits.1;
          fit_pc = put_all (λ j (d : Thread T I). FitsPc d.pc) n i s.thread c fits.0 v.fit_pc;
          behind =
              put_all (λ j (d : Thread T I). Behind d.pc → rest ≡ []) n i s.thread c (λ h. absurd h)
                (λ j ltj h. absurd (cc (v.behind j ltj h)));
          sum =
              omega (
                arith,
                v.sum,
                ap (sum_of of_task) f,
                ap pending e,
                total-put load n i s.thread c lt,
              );
        }
    ThreadStep-Kept n i tasks {s} lt (ThreadStep.see_done e f) v =
        put-Kept n i tasks s (record (s.thread i) { pc = ThreadPc.ended }) lt tt (λ _. f)
          (omega (arith, ap pending e)) v
    ThreadStep-Kept n i tasks {s} lt (ThreadStep.body {task = task} {ix = ix} e f) v =
        let fits = subst FitsPc e (v.fit_pc i lt) in
        put-Kept n i tasks s
          (record { pc = ThreadPc.running task (loop.advance ix); ran = ix ∷ (s.thread i).ran }) lt
          (V.goes task ix fits f).1 (λ h. absurd h)
          (omega (arith, ap pending e, ap (sum_of weight) (V.goes task ix fits f).0)) v
    ThreadStep-Kept n i tasks {s} lt (ThreadStep.task_over {task = task} {ix = ix} e f) v =
        let fits = subst FitsPc e (v.fit_pc i lt) in
        put-Kept n i tasks s (record (s.thread i) { pc = ThreadPc.asking }) lt tt (λ h. absurd h)
          (omega (arith, ap pending e, ap (sum_of weight) (V.stops task ix fits f))) v
    ThreadStep-Kept n i tasks {s} lt (ThreadStep.leave_last e f) v = gone n i tasks s _ _ lt e v
    ThreadStep-Kept n i tasks {s} lt (ThreadStep.leave e f) v = gone n i tasks s _ _ lt e v

    TeamReach-Kept :
        {n : ℕ} {tasks : List T} {s : Team T I}
        → All FitsTask tasks
        → TeamReach loop n tasks s
        → Kept n tasks s
    unfolding sum_of
    TeamReach-Kept {n} {tasks} fit begun = record {
      fit = fit;
      fit_pc = λ i lt. tt;
      behind = λ i lt h. absurd h;
      sum = omega (
        arith,
        total-eq-zero load n (λ _. record { pc = ThreadPc.asking; ran = [] }) (λ i. refl),
      );
    }
    TeamReach-Kept {n} {tasks} fit (later i r lt st) =
        ThreadStep-Kept n i tasks lt st (TeamReach-Kept fit r)

    -- However the threads of a rank are interleaved: when all of them, one or more, have left the loop, they
    -- have
    -- run its body with the indices of the tasks that the rank got, each as often as it stands there
    -- (the sums agree for every weight of the indices), where the loop over a task visits the task's
    -- indices.
    pub each_index_once :
        {n : ℕ} {tasks : List T} {s : Team T I}
        → 0 < n
        → All FitsTask tasks
        → TeamReach loop n tasks s
        → ((i : ℕ) → i < n → (s.thread i).pc ≡ ThreadPc.left)
        → total (λ th. sum_of weight th.ran) n s.thread ≡ sum_of of_task tasks
    unfolding sum_of
    each_index_once {n} {tasks} {s} pos fit r left =
        let v = TeamReach-Kept fit r in
        let none_left = v.behind 0 pos (subst Behind (sym (left 0 pos)) tt) in
        omega (
          arith,
          v.sum,
          ap (sum_of of_task) none_left,
          total-weights load (λ th. sum_of weight th.ran) n s.thread
              (λ i lt. omega (arith, ap pending (left i lt))),
        )
