-- ===== src/Start/Tests.antt =====
-- A leader whose main throws, and two ranks of which one has randomisation disabled.
use simple_parallel.Prelude.{
  ℕ, ◌≡◌, refl, true, false, not, ◌&&◌, ◌⊎◌, none, some, List, [], ◌∷◌, All, get_elem?,
}
use simple_parallel.Start.{
  Found, Event, MainEnd, WorkerEnd, ThreadLevel, fake_main, started, finished, asked_level,
  check_pagesize, check_cpu_binding, leader_main, after_main, check_aslr_disabled,
}
use simple_parallel.Start.Exit.{occurs, is_exit_tag, is_run_main, is_exception, exit_tag_iff}
use simple_parallel.Start.Info.{
  IsUnread, get_mpi_info_from_env, read_variables, read_rank, ret_single_rank, answers, at_start,
  answers_lem, number, unreadable,
}
use simple_parallel.Start.Aslr.{check_aslr_disabled_lem}

abbrev throwing : Found
throwing = record {
  thread_level = ThreadLevel.unset;
  ompi_variables = true;
  world_size = 4;
  world_rank = 0;
  page_size = 4096;
  actual_pagesize = 4096;
  skip_core_bind_check = false;
  avail_cpu_count = some 16;
  hardware_concurrency = 16;
  personality_read = true;
  aslr_checked = true;
  getcontext = true;
  swapcontext = true;
  main_end = MainEnd.throws;
  worker_end = WorkerEnd.returned 0;
}

throwing_run : fake_main throwing ≡ record {
  events = Event.init_mpi ThreadLevel.serialized ∷ Event.run_main ∷ Event.finalize_mpi ∷ [];
  code = 1;
}
unfolding fake_main started finished asked_level check_pagesize check_cpu_binding leader_main
    after_main
throwing_run = refl

exit_tag_iff_example :
    occurs is_exit_tag (fake_main throwing).events
    ≡ (occurs is_run_main (fake_main throwing).events && not (is_exception throwing.main_end))
exit_tag_iff_example = exit_tag_iff throwing refl

check_aslr_disabled_example :
    ((check_aslr_disabled (true ∷ false ∷ []) ≡ none) × All (λ b. b ≡ true) (true ∷ false ∷ []))
    ⊎ ((said : List ℕ) × (check_aslr_disabled (true ∷ false ∷ []) ≡ some said)
        × All (λ k. get_elem? (true ∷ false ∷ []) k ≡ some true) said)
check_aslr_disabled_example = check_aslr_disabled_lem (true ∷ false ∷ [])

-- A rank that is not a number, and later one that is.
answers_example :
    ((n r : ℕ)
      → number 4 ≡ number n
      → unreadable ≡ number r
      → All
          (λ i. i ≡ record { world_size = n; world_rank = r })
          (answers {A = ℕ} 1 0
            ((number 4, unreadable) ∷ (number 4, number 2) ∷ [])
            (at_start {A = ℕ} 1 0)))
    × (IsUnread {A = ℕ} 1 0 (number 4) ⊎ IsUnread {A = ℕ} 1 0 unreadable
        → All
            (λ i. i ≡ record { world_size = 1; world_rank = 0 })
            (answers {A = ℕ} 1 0
              ((number 4, unreadable) ∷ (number 4, number 2) ∷ [])
              (at_start {A = ℕ} 1 0)))
answers_example = answers_lem {A = ℕ} 1 0 (number 4) unreadable ((number 4, number 2) ∷ [])

answers_run :
    answers {A = ℕ} 1 0 ((number 4, unreadable) ∷ (number 4, number 2) ∷ []) (at_start {A = ℕ} 1 0)
    ≡ record { world_size = 1; world_rank = 0 } ∷ record { world_size = 1; world_rank = 0 } ∷ []
unfolding answers get_mpi_info_from_env read_variables read_rank ret_single_rank
answers_run = refl
