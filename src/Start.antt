-- ===== src/Start.antt =====
-- src/simple_parallel/init.cc: the start and the end of the program, fake_main with the checks it
-- makes. Environment variables, /proc and what the user's main does are parameters.
pub mod Exit
pub mod Aslr
pub mod Info
mod Tests
use simple_parallel.Prelude.{
  ℕ, suc, ◌+◌, Bool, true, false, not, ◌&&◌, ◌||◌, Option, none, some, List, [], ◌∷◌, ◌++◌, ltb,
  leb, ◌==◌, if◌then◌else◌,
}

-- `SIMPLE_PARALLEL_MPI_THREAD_LEVEL`: unset, one of the four names, or something else.
pub data ThreadLevel : Type 0 where
  unset single funneled serialized multiple invalid : ThreadLevel

-- How the user's main ends.
pub data MainEnd : Type 0 where
  returns : ℕ → MainEnd
  throws : MainEnd
  calls_exit : ℕ → MainEnd

-- How a worker's loop ends.
pub data WorkerEnd : Type 0 where
  returned : ℕ → WorkerEnd
  threw : WorkerEnd

-- What a process finds when it starts.
pub record Found : Type 0 where
  pub thread_level : ThreadLevel
  -- whether OpenMPI's variables of the size and the rank are set
  pub ompi_variables : Bool
  pub world_size : ℕ
  pub world_rank : ℕ
  -- `page_size` and what the system says
  pub page_size : ℕ
  pub actual_pagesize : ℕ
  pub skip_core_bind_check : Bool
  pub avail_cpu_count : Option ℕ
  pub hardware_concurrency : ℕ
  -- whether the file of the process's personality can be read, on this rank, and whether the check of
  -- address randomisation passes on all ranks
  pub personality_read : Bool
  pub aslr_checked : Bool
  pub getcontext : Bool
  pub swapcontext : Bool
  pub main_end : MainEnd
  pub worker_end : WorkerEnd

-- What a process does, in order.
pub data Event : Type 0 where
  init_mpi : ThreadLevel → Event
  run_main : Event
  send_exit_tag : Event
  run_worker : Event
  finalize_mpi : Event
  abort_mpi : Event

-- The events and the return code.
pub record Ran : Type 0 where
  pub events : List Event
  pub code : ℕ

-- The inner try: it ends, or MPI ends the process.
pub data Body : Type 0 where
  ended : Ran → Body
  aborted : Body

unfoldable pub check_pagesize : Found → Bool
check_pagesize f = f.page_size == f.actual_pagesize

-- `none` is `sched_getaffinity` failing.
unfoldable pub check_cpu_binding : Found → Bool
check_cpu_binding f = if f.skip_core_bind_check then true else elim f.avail_cpu_count [
  | none ↦ false
  | some n ↦ not (leb n 2 && ltb 2 f.hardware_concurrency)
]

-- main on the leader's own stack, and what the inner try or the handler of exit does after it.
unfoldable pub after_main : MainEnd → Ran
after_main (returns n) = record { events = run_main ∷ send_exit_tag ∷ []; code = n }
after_main throws = record { events = run_main ∷ []; code = 1 }
after_main (calls_exit n) = record { events = run_main ∷ send_exit_tag ∷ []; code = n }

unfoldable pub leader_main : Found → Ran
unfolding after_main
leader_main f =
    if not (f.getcontext && f.swapcontext)
    then record { events = []; code = 1 }
    else after_main f.main_end

-- The program linked to the library but not started by OpenMPI.
unfoldable pub single_main : MainEnd → Ran
single_main (returns n) = record { events = run_main ∷ []; code = n }
single_main throws = record { events = run_main ∷ []; code = 1 }
single_main (calls_exit n) = record { events = run_main ∷ send_exit_tag ∷ []; code = n }

unfoldable pub worker_main : WorkerEnd → Ran
worker_main (returned n) = record { events = run_worker ∷ []; code = n }
worker_main threw = record { events = run_worker ∷ []; code = 1 }

unfoldable pub started : Found → Body
unfolding check_pagesize check_cpu_binding leader_main single_main worker_main
started f =
    if not (check_pagesize f && check_cpu_binding f)
    then ended (record { events = []; code = 1 })
    else if not f.ompi_variables
    then ended
        (if ltb 1 f.world_size then record { events = []; code = 1 } else single_main f.main_end)
    else if ltb 1 f.world_size && not f.personality_read
    then ended (record { events = []; code = 1 })
    else if ltb 1 f.world_size && not f.aslr_checked
    then aborted
    else ended (if f.world_rank == 0 then leader_main f else worker_main f.worker_end)

-- The environment ends with the inner try, or in the handler of exit.
unfoldable pub finished : ThreadLevel → Body → Ran
finished level (ended r) = record {
  events = init_mpi level ∷ r.events ++ finalize_mpi ∷ [];
  code = r.code;
}
finished level aborted = record { events = init_mpi level ∷ abort_mpi ∷ []; code = 1 }

-- The level that MPI is asked for; an invalid name is an exception.
unfoldable pub asked_level : ThreadLevel → Option ThreadLevel
asked_level unset = some serialized
asked_level invalid = none
asked_level level = some level

unfoldable pub fake_main : Found → Ran
unfolding started asked_level finished
fake_main f = elim (asked_level f.thread_level) [
  | none ↦ record { events = []; code = 1 }
  | some level ↦ finished level (started f)
]

-- The ranks, from `rank` on, that say that randomisation is not disabled on them.
unfoldable pub aslr_messages : ℕ → List Bool → List ℕ
aslr_messages rank [] = []
aslr_messages rank (aslr_disabled ∷ rest) =
    if aslr_disabled then rank ∷ aslr_messages (rank + 1) rest else aslr_messages (rank + 1) rest

unfoldable pub all_disabled : List Bool → Bool
all_disabled [] = true
all_disabled (aslr_disabled ∷ rest) = aslr_disabled && all_disabled rest

-- The check on all ranks, from whether randomisation is disabled on each: nothing, or an abort after
-- the messages.
unfoldable pub check_aslr_disabled : List Bool → Option (List ℕ)
unfolding aslr_messages all_disabled
check_aslr_disabled ranks = if not (all_disabled ranks) then some (aslr_messages 0 ranks) else none
