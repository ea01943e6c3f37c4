-- ===== src/Schedule/TaskRange.antt =====
-- src/c_binding/c_dynamic_schedule_binding.cc: the class c_task_generator, which turns a C callback
-- into a range. A callback gets its state and the buffer, and returns true when there is no task
-- left; `none` stands for a trap inside the callback.
use simple_parallel.Prelude.{
  ℕ, zero, suc, Bool, true, false, Option, none, some, List, [], ◌∷◌, ◌≡◌, arith,
}

-- `s_p_task_gen_func`
abbrev pub TaskGen : Type 0 → Type 0 → Type 0
TaskGen S T = S → T → Option (Bool × T × S)

-- `c_task_generator::iterator`, without the callback.
pub record Iterator (S T : Type 0) : Type 0 where
  pub buffer : T
  pub state : S
  pub done : Bool

module _ {S T : Type 0} (gen : TaskGen S T) where
  fill : S → T → Option (Iterator S T)
  fill s buf = elim (gen s buf) [
    | none ↦ none
    | some (d, buf', s') ↦ some (record { buffer = buf'; state = s'; done = d })
  ]

  -- `iterator(task_gen_func, state)`, which asks for the first task; `blank` is the zeroed buffer.
  unfoldable pub begin : T → S → Option (Iterator S T)
  unfolding fill
  begin blank s = fill s blank

  -- `operator++`
  unfoldable pub next : Iterator S T → Option (Iterator S T)
  unfolding fill
  next it = fill it.state it.buffer

  collect_step : (Iterator S T → Option (List T)) → T → Option (Iterator S T) → Option (List T)
  collect_step rest t none = none
  collect_step rest t (some it) = elim (rest it) [ none ↦ none | some ts ↦ some (t ∷ ts) ]

  -- The values that `for (; it != end; ++it) use(*it)` reads, with at most `fuel` of them.
  unfoldable pub collect : ℕ → Iterator S T → Option (List T)
  unfolding next collect_step
  collect zero it = none
  collect (suc fuel) it = elim it.done [
    | true ↦ some []
    | false ↦ collect_step (collect fuel) it.buffer (next it)
  ]

  unfoldable pub collect_begin : ℕ → Option (Iterator S T) → Option (List T)
  unfolding collect
  collect_begin fuel none = none
  collect_begin fuel (some it) = collect fuel it

  -- A generator that reports the end at once gives no task.
  pub collect-finished :
      (fuel : ℕ) (s : S) (buf : T) {buf' : T} {s' : S}
      → gen s buf ≡ some (true, buf', s')
      → collect_begin (suc fuel) (begin buf s) ≡ some []
  unfolding collect_begin begin
  collect-finished fuel s buf e = rw (e, fill, collect_begin)

  -- A generator that gives a task goes on from the state it left.
  pub collect-produced :
      (fuel : ℕ) (s : S) (buf : T) {t : T} {s' : S} {ts : List T}
      → gen s buf ≡ some (false, t, s')
      → collect_begin fuel (begin t s') ≡ some ts
      → collect_begin (suc fuel) (begin buf s) ≡ some (t ∷ ts)
  unfolding collect_begin begin
  collect-produced fuel s buf {t} {s'} e rest = ground arith
