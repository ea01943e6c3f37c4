-- ===== src/Schedule/Gss/Collapse2.antt =====
-- The generator for two collapsed loops, src/c_binding/c_dynamic_schedule_binding.cc: a callback of
-- the user, a parameter here, walks over the index pairs.
use simple_parallel.Prelude.{
  ℕ, zero, suc, ◌+◌, ◌-◌, ◌≤◌, ◌<◌, ◌≡◌, ◌↔◌, ◌≢◌, refl, Bool, true, false, Option, none, some,
  List, [], ◌∷◌, arith, ◌==◌, if◌then◌else◌, sub64, sub64_lem, word, Bool-cases, inl, inr, ==→eq,
}
use simple_parallel.Schedule.TaskRange.{
  TaskGen, begin, collect_begin, collect-finished, collect-produced,
}
use simple_parallel.Schedule.Gss.{next_length}
use simple_parallel.Schedule.Gss.Partition.{next_length_bounds}

-- `s_p_ij_point_t`
pub record IjPoint : Type 0 where
  pub i : ℕ
  pub j : ℕ

-- `s_p_collapse_2_task`
pub record Collapse2Task : Type 0 where
  pub ij_begin : IjPoint
  pub ij_end : IjPoint

-- `collapse_2_gss_gen_func_res_t`
pub record GenFuncRes : Type 0 where
  pub ij_end : IjPoint
  pub count : ℕ

-- `collapse_2_gss_gen_func`, with its last argument applied.
abbrev pub GenFunc : Type 0
GenFunc = IjPoint → IjPoint → ℕ → GenFuncRes

-- `s_p_collapse_2_gss_state_t`, without the callback and the callback's state.
pub record Collapse2State : Type 0 where
  pub current : IjPoint
  pub end : IjPoint
  pub remaining_index : ℕ
  pub grain_size : ℕ
  pub all_rank_process_count : ℕ

module _ (gen_func : GenFunc) where
  produce : Collapse2State → GenFuncRes → Option (Bool × Collapse2Task × Collapse2State)
  produce s res =
      if res.count == 0
      then none
      else some (
        false,
        record { ij_begin = s.current; ij_end = res.ij_end },
        record s { current = res.ij_end; remaining_index = sub64 s.remaining_index res.count },
      )

  -- A failed assertion and a division by zero trap.
  unfoldable pub s_p_collapse_2_gss_generator : TaskGen Collapse2State Collapse2Task
  unfolding produce
  s_p_collapse_2_gss_generator s buffer =
      if s.current.i == s.end.i
      then (if s.remaining_index == 0 then some (true, buffer, s) else none)
      else (if s.all_rank_process_count == 0
          then none
          else produce s (
              gen_func s.current s.end
                (next_length s.remaining_index s.all_rank_process_count s.grain_size)))

unfoldable pub s_p_new_collapse_2_gss_state : ℕ → ℕ → ℕ → ℕ → ℕ → ℕ → ℕ → Collapse2State
s_p_new_collapse_2_gss_state i_begin i_end j_begin j_end grain all_index_count count = record {
  current = record { i = i_begin; j = j_begin };
  end = record { i = i_end; j = j_end };
  remaining_index = all_index_count;
  grain_size = grain;
  all_rank_process_count = count;
}

-- What the callback promises: `pos` numbers the index pairs in the order of the loops, `total` of
-- them lie before the end, a call moves on by the count it reports, which is at least one and at
-- most what was asked for, and the outer index reaches its end with the last pair.
pub record Walks (gen_func : GenFunc) (final : IjPoint) (pos : IjPoint → ℕ) (total : ℕ)
    : Type 0 where
  pub moves :
      (p : IjPoint) (n : ℕ)
      → pos p < total
      → 0 < n
      → pos p + n ≤ total
      → (0 < (gen_func p final n).count)
        × ((gen_func p final n).count ≤ n)
        × (pos (gen_func p final n).ij_end ≡ pos p + (gen_func p final n).count)
  pub ends : (p : IjPoint) → pos p ≤ total → (p.i ≡ final.i) ↔ (pos p ≡ total)

-- Consecutive tasks from the pair `p` on, each over at least one pair, that end where the outer index
-- is at its end.
abbrev pub Covers : IjPoint → (IjPoint → ℕ) → IjPoint → List Collapse2Task → Type 0
Covers final pos p [] = p.i ≡ final.i
Covers final pos p (t ∷ ts) =
    (t.ij_begin ≡ p) × (pos p < pos t.ij_end) × Covers final pos t.ij_end ts

module _ (gen_func : GenFunc) (final : IjPoint) (pos : IjPoint → ℕ) (total : ℕ)
    (walk : Walks gen_func final pos total) where
  -- What the state says about the walk.
  record Ready (s : Collapse2State) : Type 0 where
    at : pos s.current + s.remaining_index ≡ total
    small : total < word
    goal : s.end ≡ final
    ranks : 0 < s.all_rank_process_count

  taken : Collapse2State → GenFuncRes
  taken s =
      gen_func s.current final (next_length s.remaining_index s.all_rank_process_count s.grain_size)

  collapse_finished :
      (s : Collapse2State) (buf : Collapse2Task)
      → Ready s
      → s.remaining_index ≡ 0
      → (s_p_collapse_2_gss_generator gen_func s buf ≡ some (true, buf, s))
        × (s.current.i ≡ final.i)
  unfolding s_p_collapse_2_gss_generator
  collapse_finished s buf r z =
      let e : s.current.i ≡ final.i = (walk.ends s.current (omega arith)).1 (omega arith) in
      (ground (arith, e, r.goal), e)

  collapse_produced :
      (s : Collapse2State) (buf : Collapse2Task)
      → Ready s
      → 0 < s.remaining_index
      → (0 < (taken s).count)
        × ((taken s).count ≤ s.remaining_index)
        × (pos (taken s).ij_end ≡ pos s.current + (taken s).count)
        × (s_p_collapse_2_gss_generator gen_func s buf
            ≡ some (
              false,
              record { ij_begin = s.current; ij_end = (taken s).ij_end },
              record s {
                current = (taken s).ij_end;
                remaining_index = s.remaining_index - (taken s).count;
              },
            ))
  unfolding s_p_collapse_2_gss_generator taken
  collapse_produced s buf r p =
      let n = next_length s.remaining_index s.all_rank_process_count s.grain_size in
      let b = next_length_bounds s.remaining_index s.all_rank_process_count s.grain_size p in
      let m = walk.moves s.current n (omega arith) b.0 (omega arith) in
      let e = walk.ends s.current (omega arith) in
      let ne : s.current.i ≢ final.i = λ q. absurd (omega (arith, e.0 q)) in
      let left = sub64_lem s.remaining_index (taken s).count (omega arith) (omega arith) in
      (m.0, omega arith, m.2, ground (arith, r.goal, ne, left, m.0))

  collect-Covers :
      (fuel : ℕ) (s : Collapse2State) (buf : Collapse2Task)
      → Ready s
      → s.remaining_index < fuel
      → (ts : List Collapse2Task) × (collect_begin
            (s_p_collapse_2_gss_generator gen_func)
            fuel
            (begin (s_p_collapse_2_gss_generator gen_func) buf s)
          ≡ some ts)
        × Covers final pos s.current ts
  collect-Covers zero s buf r f = absurd (omega arith)
  collect-Covers (suc fuel) s buf r f = elim (Bool-cases (s.remaining_index == 0)) [
    | inl e ↦
        let fin = collapse_finished s buf r (==→eq _ _ e) in
        ([], collect-finished (s_p_collapse_2_gss_generator gen_func) fuel s buf fin.0, fin.1)
    | inr ne ↦
        let p = collapse_produced s buf r (ground arith) in
        let t : Collapse2Task = record { ij_begin = s.current; ij_end = (taken s).ij_end } in
        let s' = record s {
          current = (taken s).ij_end;
          remaining_index = s.remaining_index - (taken s).count;
        } in
        let r' : Ready s' = record {
          at = omega (arith, r.at);
          small = r.small;
          goal = r.goal;
          ranks = r.ranks;
        } in
        let (ts, e, c) = collect-Covers fuel s' t r' (omega arith) in
        (
          t ∷ ts,
          collect-produced (s_p_collapse_2_gss_generator gen_func) fuel s buf p.3 e,
          (refl, omega arith, c),
        )
  ]

-- With a callback that walks over the index pairs as promised, an `all_index_count` that is the
-- number of pairs from the first pair to the end, and a process count above 0, the loop over the
-- generator of collapsed loops ends without a trap or a failed assertion after at most
-- `all_index_count` tasks; they follow one another without a gap from the first pair on, each
-- holds at least one pair, and the last ends where the outer index is at its end.
pub collapse_2_partition :
    (gen_func : GenFunc) (i_begin i_end j_begin j_end grain all_index_count count : ℕ)
    (pos : IjPoint → ℕ) (total : ℕ) (blank : Collapse2Task) (fuel : ℕ)
    (walk : Walks gen_func (record { i = i_end; j = j_end }) pos total)
    → pos (record { i = i_begin; j = j_begin }) + all_index_count ≡ total
    → total < word
    → 0 < count
    → all_index_count < fuel
    → (ts : List Collapse2Task) × (collect_begin (s_p_collapse_2_gss_generator gen_func) fuel (
          begin
            (s_p_collapse_2_gss_generator gen_func)
            blank
            (s_p_new_collapse_2_gss_state i_begin i_end j_begin j_end grain all_index_count count))
        ≡ some ts)
      × Covers (record { i = i_end; j = j_end }) pos (record { i = i_begin; j = j_begin }) ts
unfolding s_p_new_collapse_2_gss_state
collapse_2_partition gen_func i_begin i_end j_begin j_end grain n count pos total blank fuel walk at
      small c f =
    collect-Covers gen_func _ pos total walk fuel
      (s_p_new_collapse_2_gss_state i_begin i_end j_begin j_end grain n count) blank
      (record { at = at; small = small; goal = refl; ranks = c }) f
