-- ===== src/Schedule/Threads.antt =====
-- The macros S_P_GSS_UINT64_T_PAR_FOR and S_P_GSS_UINT64_T_PAR_FOR_COLLAPSE_2 of
-- include/simple_parallel/c/c_dynamic_schedule_binding.h: the OpenMP threads of one rank share the
-- rank's schedule. What the schedule gives to the rank is a list; the critical sections are single
-- steps.
pub mod Shared
pub mod Once
pub mod Indices
pub mod Collapse2
pub mod ParFor
pub mod Outlived
mod Tests
use simple_parallel.Prelude.{
  ℕ, suc, ◌+◌, ◌-◌, ◌<◌, ◌≡◌, ◌≢◌, Bool, true, false, not, ◌&&◌, List, [], ◌∷◌, ltb, ◌==◌, add64,
}
use simple_parallel.Prelude.Family.{put}
use simple_parallel.Schedule.Gss.{SimpleTask}
use simple_parallel.Schedule.Gss.Collapse2.{IjPoint, Collapse2Task, GenFunc}

-- The `for` over the indices of a task.
pub record IndexLoop (T I : Type 0) : Type 0 where
  pub first : T → I
  pub more : T → I → Bool
  pub advance : I → I

abbrev pub gss_loop : IndexLoop SimpleTask ℕ
gss_loop = record {
  first = λ task. task.begin;
  more = λ task i. ltb i task.end;
  advance = λ i. add64 i 1;
}

abbrev pub collapse_2_loop : GenFunc → IjPoint → IndexLoop Collapse2Task IjPoint
collapse_2_loop gen_func final_end = record {
  first = λ task. task.ij_begin;
  more = λ task ij. not ((ij.i == task.ij_end.i) && (ij.j == task.ij_end.j));
  advance = λ ij. (gen_func ij final_end 1).ij_end;
}

-- Where a thread stands: before the first critical section, in the loop over a task's indices at an
-- index, before the last critical section, and behind it.
pub data ThreadPc (T I : Type 0) : Type 0 where
  asking : ThreadPc T I
  running : T → I → ThreadPc T I
  ended : ThreadPc T I
  left : ThreadPc T I

pub record Thread (T I : Type 0) : Type 0 where
  pub pc : ThreadPc T I
  -- the indices that the body ran with, the last one first
  pub ran : List I

pub record Team (T I : Type 0) : Type 0 where
  -- what the schedule still gives to the rank
  pub tasks : List T
  -- `*_num_threads_count_ptr`
  pub num_threads_count : ℕ
  -- how often `s_p_delete_dynamic_schedule` was called
  pub deletions : ℕ
  pub thread : ℕ → Thread T I

module _ {T I : Type 0} where
  -- Behind `omp single`, with the schedule that one of the `n` threads has made.
  abbrev pub new_team : ℕ → List T → Team T I
  new_team n tasks = record {
    tasks = tasks;
    num_threads_count = n;
    deletions = 0;
    thread = λ _. record { pc = ThreadPc.asking; ran = [] };
  }

  -- A step of thread `i`.
  pub data ThreadStep (loop : IndexLoop T I) (i : ℕ) (s : Team T I) : Team T I → Type 0 where
    -- the first critical section, with a task and with none
    take :
        {task : T} {rest : List T}
        → (s.thread i).pc ≡ ThreadPc.asking
        → s.tasks ≡ task ∷ rest
        → ThreadStep loop i s (record s {
          tasks = rest;
          thread =
              put s.thread i (record (s.thread i) { pc = ThreadPc.running task (loop.first task) });
        })
    see_done :
        (s.thread i).pc ≡ ThreadPc.asking
        → s.tasks ≡ []
        → ThreadStep loop i s
            (record s { thread = put s.thread i (record (s.thread i) { pc = ThreadPc.ended }) })
    -- the body of the user's loop
    body :
        {task : T} {ix : I}
        → (s.thread i).pc ≡ ThreadPc.running task ix
        → loop.more task ix ≡ true
        → ThreadStep loop i s (record s {
          thread = put s.thread i (record {
            pc = ThreadPc.running task (loop.advance ix);
            ran = ix ∷ (s.thread i).ran;
          });
        })
    task_over :
        {task : T} {ix : I}
        → (s.thread i).pc ≡ ThreadPc.running task ix
        → loop.more task ix ≡ false
        → ThreadStep loop i s
            (record s { thread = put s.thread i (record (s.thread i) { pc = ThreadPc.asking }) })
    -- the last critical section, where the count comes to 0 and where it does not
    leave_last :
        (s.thread i).pc ≡ ThreadPc.ended
        → s.num_threads_count - 1 ≡ 0
        → ThreadStep loop i s (record s {
          num_threads_count = s.num_threads_count - 1;
          deletions = s.deletions + 1;
          thread = put s.thread i (record (s.thread i) { pc = ThreadPc.left });
        })
    leave :
        (s.thread i).pc ≡ ThreadPc.ended
        → s.num_threads_count - 1 ≢ 0
        → ThreadStep loop i s (record s {
          num_threads_count = s.num_threads_count - 1;
          thread = put s.thread i (record (s.thread i) { pc = ThreadPc.left });
        })

  -- The states that `n` threads can come to over the tasks.
  pub data TeamReach (loop : IndexLoop T I) (n : ℕ) (tasks : List T) : Team T I → Type 0 where
    begun : TeamReach loop n tasks (new_team n tasks)
    later :
        {s t : Team T I} (i : ℕ)
        → TeamReach loop n tasks s
        → i < n
        → ThreadStep loop i s t
        → TeamReach loop n tasks t
