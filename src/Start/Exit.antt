-- ===== src/Start/Exit.antt =====
-- When the leader tells the workers to end.
use simple_parallel.Prelude.{
  ◌≡◌, refl, ◌∙◌, sym, ap, Bool, true, false, not, ◌&&◌, ◌||◌, List, [], ◌∷◌, ◌++◌, ltb, ◌==◌,
  Bool-cases, Option-cases, inl, inr,
}
use simple_parallel.Start.{
  Found, Event, Ran, Body, MainEnd, WorkerEnd, ThreadLevel, check_pagesize, check_cpu_binding,
  leader_main, after_main, worker_main, started, finished, asked_level, fake_main,
}

abbrev pub is_run_main : Event → Bool
is_run_main Event.run_main = true
is_run_main _ = false

abbrev pub is_exit_tag : Event → Bool
is_exit_tag Event.send_exit_tag = true
is_exit_tag _ = false

abbrev pub occurs : (Event → Bool) → List Event → Bool
occurs f [] = false
occurs f (e ∷ es) = f e || occurs f es

abbrev pub is_exception : MainEnd → Bool
is_exception MainEnd.throws = true
is_exception _ = false

-- The tag is sent exactly when main ran and did not throw.
abbrev Tagged : MainEnd → List Event → Type 0
Tagged m es = occurs is_exit_tag es ≡ (occurs is_run_main es && not (is_exception m))

occurs-append :
    (f : Event → Bool) (es : List Event) (e : Event)
    → f e ≡ false
    → occurs f (es ++ e ∷ []) ≡ occurs f es
occurs-append f [] e h = rw h refl
occurs-append f (d ∷ es) e h = ap (λ b. f d || b) (occurs-append f es e h)

finished-Tagged :
    (m : MainEnd) (level : ThreadLevel) (r : Ran)
    → Tagged m r.events
    → Tagged m (finished level (Body.ended r)).events
unfolding finished
finished-Tagged m level r h =
    occurs-append is_exit_tag r.events Event.finalize_mpi refl
    ∙ h
    ∙ ap (λ b. b && not (is_exception m))
        (sym (occurs-append is_run_main r.events Event.finalize_mpi refl))

leader-Tagged : (f : Found) → Tagged f.main_end (leader_main f).events
unfolding leader_main after_main
leader-Tagged f = elim (Bool-cases (f.getcontext && f.swapcontext)) [
  | inl ok ↦ rw ok (by_end f.main_end)
  | inr failed ↦ rw failed refl
]
  where
    by_end : (m : MainEnd) → Tagged m (after_main m).events
    by_end (MainEnd.returns n) = refl
    by_end MainEnd.throws = refl
    by_end (MainEnd.calls_exit n) = refl

worker-Tagged : (m : MainEnd) (e : WorkerEnd) → Tagged m (worker_main e).events
unfolding worker_main
worker-Tagged m (WorkerEnd.returned n) = refl
worker-Tagged m WorkerEnd.threw = refl

aborted-Tagged : (m : MainEnd) (level : ThreadLevel) → Tagged m (finished level Body.aborted).events
unfolding finished
aborted-Tagged m level = refl

started-Tagged :
    (f : Found) (level : ThreadLevel)
    → f.ompi_variables ≡ true
    → Tagged f.main_end (finished level (started f)).events
unfolding started
started-Tagged f level ompi = elim (Bool-cases (check_pagesize f && check_cpu_binding f)) [
  | inr failed ↦ rw (started, failed) (finished-Tagged f.main_end level _ refl)
  | inl passed ↦ elim (Bool-cases (ltb 1 f.world_size && not f.personality_read)) [
    | inl unread ↦ rw (started, passed, ompi, unread) (finished-Tagged f.main_end level _ refl)
    | inr read ↦ elim (Bool-cases (ltb 1 f.world_size && not f.aslr_checked)) [
      | inl bad ↦ rw (started, passed, ompi, read, bad) (aborted-Tagged f.main_end level)
      | inr good ↦ elim (Bool-cases (f.world_rank == 0)) [
        | inl lead ↦
            rw (started, passed, ompi, read, good, lead)
              (finished-Tagged f.main_end level _ (leader-Tagged f))
        | inr work ↦
            rw (started, passed, ompi, read, good, work)
              (finished-Tagged f.main_end level _ (worker-Tagged f.main_end f.worker_end))
      ]
    ]
  ]
]

-- For a process that OpenMPI started, whatever else it finds: it sends the exit tag exactly when it
-- ran main and main did not throw; so when main throws on the leader, no worker is told to end.
pub exit_tag_iff :
    (f : Found)
    → f.ompi_variables ≡ true
    → occurs is_exit_tag (fake_main f).events
      ≡ (occurs is_run_main (fake_main f).events && not (is_exception f.main_end))
unfolding fake_main
exit_tag_iff f ompi = elim (Option-cases (asked_level f.thread_level)) [
  | inl invalid ↦ rw (fake_main, invalid) refl
  | inr (level, valid) ↦ rw (fake_main, valid) (started-Tagged f level ompi)
]
