-- ===== src/Schedule/Threads/Tests.antt =====
-- Two ranks with the range from 0 to 3, the client with two threads.
use simple_parallel.Prelude.{
  true, ℕ, zero, suc, ◌+◌, ◌≤◌, ◌<◌, ◌≡◌, ◌↔◌, refl, ap₂, ◌*◌, ◌/◌, ◌%◌, ltb, ◌==◌, ◌&&◌,
  if◌then◌else◌, List, [], ◌∷◌, arith, All,
}
use simple_parallel.Prelude.Family.{total}
use simple_parallel.Schedule.TaskRange.{begin}
use simple_parallel.Schedule.Gss.{SimpleTask}
use simple_parallel.Schedule.Dynamic.Conserve.{sum_of}
use simple_parallel.Schedule.Dynamic.Example.{all_ended}
use simple_parallel.Schedule.Dynamic.Example
use simple_parallel.Schedule.Dynamic.Network.{Network}
use simple_parallel.Schedule.Gss.Collapse2.{IjPoint, GenFunc, Walks}
use simple_parallel.Schedule.Threads.{gss_loop, ThreadPc, Team, ThreadStep, TeamReach, begun, later}
use simple_parallel.Schedule.Threads.Shared.{deleted_by_last}
use simple_parallel.Schedule.Threads.Once.{Visits, FitsTask, of_task, each_index_once}
use simple_parallel.Schedule.Threads.Indices.{gss_visits}
use simple_parallel.Schedule.Threads.Collapse2.{collapse_2_visits, pairs_from}
use simple_parallel.Schedule.Threads.ParFor.{Rank}
use simple_parallel.Schedule.Threads.Outlived.{Outlived, count_outlived}

abbrev first_task : SimpleTask
first_task = record { begin = 0; end = 2 }

abbrev second_task : SimpleTask
second_task = record { begin = 2; end = 3 }

abbrev tasks : List SimpleTask
tasks = first_task ∷ second_task ∷ []

abbrev blank : SimpleTask
blank = record { begin = 0; end = 0 }

abbrev Run : ℕ → List SimpleTask → Type 0
Run n ts = (s : Team SimpleTask ℕ) × TeamReach gss_loop n ts s

abbrev thread_does :
    {n : ℕ} {ts : List SimpleTask} (i : ℕ)
    → i < n
    → (r : Run n ts) {t : Team SimpleTask ℕ} → ThreadStep gss_loop i r.0 t
    → Run n ts
thread_does i lt r {t} st = (t, later i r.1 lt st)

-- Each thread takes a task; the first one leaves last.
abbrev two_threads : Run 2 tasks
two_threads =
    let r1 =
      thread_does {n = 2} {ts = tasks} 0 (omega arith) (_, begun) (ThreadStep.take refl refl) in
    let r2 = thread_does 1 (omega arith) r1 (ThreadStep.take refl refl) in
    let r3 = thread_does 0 (omega arith) r2 (ThreadStep.body refl refl) in
    let r4 = thread_does 1 (omega arith) r3 (ThreadStep.body refl refl) in
    let r5 = thread_does 1 (omega arith) r4 (ThreadStep.task_over refl refl) in
    let r6 = thread_does 1 (omega arith) r5 (ThreadStep.see_done refl refl) in
    let r7 = thread_does 1 (omega arith) r6 (ThreadStep.leave refl (λ e. omega (arith, e))) in
    let r8 = thread_does 0 (omega arith) r7 (ThreadStep.body refl refl) in
    let r9 = thread_does 0 (omega arith) r8 (ThreadStep.task_over refl refl) in
    let r10 = thread_does 0 (omega arith) r9 (ThreadStep.see_done refl refl) in
    thread_does 0 (omega arith) r10 (ThreadStep.leave_last refl refl)

two_threads_left : (i : ℕ) → i < 2 → (two_threads.0.thread i).pc ≡ ThreadPc.left
two_threads_left zero lt = refl
two_threads_left (suc zero) lt = refl
two_threads_left (suc (suc i)) lt = absurd (omega arith)

two_threads_ran : (two_threads.0.thread 0).ran ≡ 1 ∷ 0 ∷ []
two_threads_ran = refl

abbrev no_task : Run 1 []
no_task =
    let r1 =
      thread_does {n = 1} {ts = []} 0 (omega arith) (_, begun) (ThreadStep.see_done refl refl) in
    thread_does 0 (omega arith) r1 (ThreadStep.leave_last refl refl)

fits : All (FitsTask gss_loop gss_visits) tasks
unfolding gss_visits
fits = (omega arith, (omega arith, tt))

deleted_by_last_example :
    (two_threads.0.deletions ≤ 1)
    × ((0 < two_threads.0.deletions)
        ↔ ((i : ℕ) → i < 2 → (two_threads.0.thread i).pc ≡ ThreadPc.left))
deleted_by_last_example = deleted_by_last (omega arith) two_threads.1

each_index_once_example :
    total (λ th. sum_of (λ i. i * i) th.ran) 2 two_threads.0.thread
    ≡ sum_of (of_task gss_loop gss_visits (λ i. i * i)) tasks
each_index_once_example =
    each_index_once gss_loop gss_visits (λ i. i * i) (omega arith) fits two_threads.1
      two_threads_left

count_outlived_example :
    Outlived gss_loop gss_visits 2 0 1 tasks (omega arith) (omega arith) (omega arith) (omega arith)
count_outlived_example =
    count_outlived gss_loop gss_visits 2 0 1 tasks (omega arith) (omega arith) (omega arith)
      (omega arith) fits

abbrev run : Example.Run first_task second_task
run = all_ended first_task second_task

abbrev ranks : ℕ → Rank
ranks zero = record { threads = 1; team = no_task.0 }
ranks (suc k) = record { threads = 2; team = two_threads.0 }

abbrev ordered_and_eager : Network
ordered_and_eager = record { in_order = true; copies = true }

-- Two loops of two and of three rounds; pairs outside the loops are put behind the end.
abbrev grid_pos : IjPoint → ℕ
grid_pos p =
    if ltb p.i 2 && ltb p.j 3 then p.i * 3 + p.j else if (p.i == 2) && (p.j == 0) then 6 else 7

abbrev grid : GenFunc
grid p final n = record {
  ij_end = record { i = (grid_pos p + n) / 3; j = (grid_pos p + n) % 3 };
  count = n;
}

grid-Walks : Walks grid (record { i = 2; j = 0 }) grid_pos 6
grid-Walks = record {
  moves = λ p n lt pos le. (pos, omega arith, ground arith);
  ends = λ p le. (λ e. ground arith, λ e. ground arith);
}

same_pair : (p q : IjPoint) → grid_pos p ≤ 6 → grid_pos p ≡ grid_pos q → p ≡ q
same_pair p q le e =
    let same_i : p.i ≡ q.i = ground arith in
    let same_j : p.j ≡ q.j = ground arith in ap₂ (λ i j. record { i = i; j = j }) same_i same_j

-- The pairs of a task over the end of the first row and the start of the second one.
grid_pairs :
    Visits.visits
      (collapse_2_visits grid (record { i = 2; j = 0 }) grid_pos 6 grid-Walks same_pair)
      (record { ij_begin = record { i = 0; j = 1 }; ij_end = record { i = 1; j = 1 } })
      (record { i = 0; j = 1 })
    ≡ record { i = 0; j = 1 } ∷ record { i = 0; j = 2 } ∷ record { i = 1; j = 0 } ∷ []
unfolding collapse_2_visits pairs_from
grid_pairs = refl
