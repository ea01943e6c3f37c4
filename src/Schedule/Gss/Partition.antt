-- ===== src/Schedule/Gss/Partition.antt =====
-- The tasks of guided self-scheduling cut the index range into consecutive pieces.
use simple_parallel.Prelude.{
  ℕ, zero, suc, ◌+◌, ◌-◌, ◌/◌, ◌≤◌, ◌<◌, min, max, ◌≡◌, refl, true, false, some, List, [], ◌∷◌,
  arith, All, sub64_lem, word, Bool-cases, ==→eq, inl, inr, ◌==◌,
}
use simple_parallel.Schedule.TaskRange.{begin, collect_begin, collect-finished, collect-produced}
use simple_parallel.Schedule.Gss.{
  GssState, SimpleTask, next_length, s_p_gss_generator, s_p_new_gss_state,
}

pub next_length_bounds : (r c g : ℕ) → 0 < r → (0 < next_length r c g) × (next_length r c g ≤ r)
unfolding next_length
next_length_bounds r c g h = omega arith

-- Consecutive non-empty tasks from `a` to `b`.
abbrev pub Tiles : ℕ → ℕ → List SimpleTask → Type 0
Tiles a b [] = a ≡ b
Tiles a b (t ∷ ts) = (t.begin ≡ a) × (a < t.end) × Tiles t.end b ts

-- A task holds at least the grain, unless it ends the range, and at most the larger of the grain
-- and an even share, rounded up, of what is left.
abbrev pub IsGuided : ℕ → ℕ → ℕ → SimpleTask → Type 0
IsGuided count grain e t =
    (min grain (e - t.begin) ≤ t.end - t.begin)
    × (t.end - t.begin ≤ max grain ((e - t.begin - 1) / count + 1))

taken : GssState → ℕ
taken s = s.current + next_length (s.end - s.current) s.all_rank_process_count s.grain_size

gss_finished :
    (s : GssState) (buf : SimpleTask)
    → s.current ≡ s.end
    → s.end < word
    → s_p_gss_generator s buf ≡ some (true, buf, s)
unfolding s_p_gss_generator
gss_finished s buf h w = ground arith

gss_produced :
    (s : GssState) (buf : SimpleTask)
    → s.current < s.end
    → s.end < word
    → 0 < s.all_rank_process_count
    → s_p_gss_generator s buf
      ≡ some (false, record { begin = s.current; end = taken s }, record s { current = taken s })
unfolding s_p_gss_generator taken
gss_produced s buf h w c =
    let bound =
      next_length_bounds (s.end - s.current) s.all_rank_process_count s.grain_size (omega arith) in
    ground (arith, sub64_lem s.end s.current (omega arith) w, bound)

abbrev Guided : GssState → List SimpleTask → Type 0
Guided s ts =
    Tiles s.current s.end ts × All (IsGuided s.all_rank_process_count s.grain_size s.end) ts

taken_bounds : (s : GssState) → s.current < s.end → (s.current < taken s) × (taken s ≤ s.end)
unfolding taken
taken_bounds s h = omega (
  arith,
  next_length_bounds (s.end - s.current) s.all_rank_process_count s.grain_size (omega arith),
)

taken-IsGuided :
    (s : GssState)
    → s.current < s.end
    → IsGuided s.all_rank_process_count s.grain_size s.end
        (record { begin = s.current; end = taken s })
unfolding taken next_length
taken-IsGuided s h = omega arith

collect-Guided :
    (fuel : ℕ) (s : GssState) (buf : SimpleTask)
    → s.current ≤ s.end
    → s.end < word
    → 0 < s.all_rank_process_count
    → s.end - s.current < fuel
    → (ts : List SimpleTask) × (collect_begin s_p_gss_generator fuel (begin s_p_gss_generator buf s)
        ≡ some ts)
      × Guided s ts
collect-Guided zero s buf h w c f = absurd (omega arith)
collect-Guided (suc fuel) s buf h w c f = elim (Bool-cases (s.current == s.end)) [
  | inl e ↦ (
    [],
    collect-finished s_p_gss_generator fuel s buf (gss_finished s buf (==→eq _ _ e) w),
    (==→eq _ _ e, tt),
  )
  | inr ne ↦
      let lt : s.current < s.end = ground arith in
      let b = taken_bounds s lt in
      let t : SimpleTask = record { begin = s.current; end = taken s } in
      let (ts, e, g) =
        collect-Guided fuel (record s { current = taken s }) t b.1 w c (omega arith) in
      (
        t ∷ ts,
        collect-produced s_p_gss_generator fuel s buf (gss_produced s buf lt w c) e,
        ((refl, b.0, g.0), (taken-IsGuided s lt, g.1)),
      )
]

-- For `begin <= end` and a process count above 0, the loop over a fresh generator ends without a
-- trap after at most `end - begin` tasks; they cut `[begin, end)` into consecutive non-empty
-- pieces, each no shorter than the grain unless it ends the range, and no longer than the larger
-- of the grain and an even share, rounded up, of what was left.
pub gss_partition :
    (b e grain count : ℕ) (blank : SimpleTask) (fuel : ℕ)
    → b ≤ e
    → e < word
    → 0 < count
    → e - b < fuel
    → (ts : List SimpleTask) × (collect_begin s_p_gss_generator fuel
          (begin s_p_gss_generator blank (s_p_new_gss_state b e grain count))
        ≡ some ts)
      × Tiles b e ts
      × All (IsGuided count grain e) ts
unfolding s_p_new_gss_state
gss_partition b e grain count blank fuel h w c f =
    let (ts, run, g) = collect-Guided fuel (s_p_new_gss_state b e grain count) blank h w c f in
    (ts, run, g.0, g.1)
