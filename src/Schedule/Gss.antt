-- ===== src/Schedule/Gss.antt =====
-- Guided self-scheduling, src/c_binding/c_dynamic_schedule_binding.cc: the generator of index
-- ranges and the one for two collapsed loops, over 64-bit words.
pub mod Partition
pub mod Collapse2
use simple_parallel.Prelude.{
  ℕ, ◌+◌, ◌-◌, ◌/◌, min, max, Bool, true, false, Option, none, some, ◌==◌, if◌then◌else◌, sub64,
  add64,
}
use simple_parallel.Schedule.TaskRange.{TaskGen}

-- `s_p_gss_state_t`
pub record GssState : Type 0 where
  pub current : ℕ
  pub end : ℕ
  pub grain_size : ℕ
  pub all_rank_process_count : ℕ

-- `s_p_simple_task`
pub record SimpleTask : Type 0 where
  pub begin : ℕ
  pub end : ℕ

-- The length of the next task when `remaining` indices are left: `(remaining - 1) / count + 1`,
-- raised to the grain and cut to what is left. With none left the wrapped difference does not
-- matter, since the cut gives 0.
unfoldable pub next_length : ℕ → ℕ → ℕ → ℕ
next_length remaining count grain = min (max ((remaining - 1) / count + 1) grain) remaining

-- Division by a process count of 0 traps.
unfoldable pub s_p_gss_generator : TaskGen GssState SimpleTask
s_p_gss_generator s buffer =
    let remaining = sub64 s.end s.current in
    let next = next_length remaining s.all_rank_process_count s.grain_size in
    if remaining == 0
    then some (true, buffer, s)
    else (if s.all_rank_process_count == 0
        then none
        else some (
          false,
          record { begin = s.current; end = add64 s.current next },
          record s { current = add64 s.current next },
        ))

-- The sum that `all_reduce` gives is `all_rank_process_count`.
unfoldable pub s_p_new_gss_state : ℕ → ℕ → ℕ → ℕ → GssState
s_p_new_gss_state begin end grain all_rank_process_count = record {
  current = begin;
  end = end;
  grain_size = grain;
  all_rank_process_count = all_rank_process_count;
}
