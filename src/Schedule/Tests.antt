-- ===== src/Schedule/Tests.antt =====
-- The schedule's theorems at concrete inputs, and runs of its code.
use simple_parallel.Prelude.{
  ℕ, ◌+◌, ◌*◌, ◌/◌, ◌%◌, ◌≡◌, refl, some, List, [], ◌∷◌, arith, All, ltb, ◌==◌, min, if◌then◌else◌,
}
use simple_parallel.Schedule.TaskRange.{begin, collect_begin}
use simple_parallel.Schedule.Gss.{SimpleTask, next_length, s_p_gss_generator, s_p_new_gss_state}
use simple_parallel.Schedule.Gss.Partition.{Tiles, IsGuided, gss_partition}
use simple_parallel.Schedule.Gss.Collapse2.{
  IjPoint, Collapse2Task, GenFunc, Walks, Covers, s_p_collapse_2_gss_generator,
  s_p_new_collapse_2_gss_state, collapse_2_partition,
}

abbrev blank : SimpleTask
blank = record { begin = 0; end = 0 }

gss_run :
    collect_begin s_p_gss_generator 20 (begin s_p_gss_generator blank (s_p_new_gss_state 3 13 3 2))
    ≡ some (
        record { begin = 3; end = 8 }
        ∷ record { begin = 8; end = 11 }
        ∷ record { begin = 11; end = 13 }
        ∷ [])
unfolding collect_begin begin s_p_gss_generator next_length s_p_new_gss_state
gss_run = refl

gss_partition_example :
    (ts : List SimpleTask) × (collect_begin s_p_gss_generator 20
        (begin s_p_gss_generator blank (s_p_new_gss_state 3 13 3 2))
      ≡ some ts)
    × Tiles 3 13 ts
    × All (IsGuided 2 3 13) ts
gss_partition_example =
    gss_partition 3 13 3 2 blank 20 (omega arith) (omega arith) (omega arith) (omega arith)

-- Two loops of four and of three rounds; a pair outside the loops is put where it does no harm.
abbrev grid_pos : IjPoint → ℕ
grid_pos p = if ltb p.i 4 then p.i * 3 + min p.j 2 else if p.i == 4 then 12 else 13

abbrev grid : GenFunc
grid p final n = record {
  ij_end = record { i = (grid_pos p + n) / 3; j = (grid_pos p + n) % 3 };
  count = n;
}

abbrev corner : IjPoint
corner = record { i = 4; j = 0 }

grid-Walks : Walks grid corner grid_pos 12
grid-Walks = record {
  moves = λ p n lt pos le. (pos, omega arith, ground arith);
  ends = λ p le. (λ e. ground arith, λ e. ground arith);
}

abbrev start_2 : Collapse2Task
start_2 = record { ij_begin = record { i = 0; j = 0 }; ij_end = record { i = 0; j = 0 } }

collapse_2_partition_example :
    (ts : List Collapse2Task) × (collect_begin (s_p_collapse_2_gss_generator grid) 13 (
        begin
          (s_p_collapse_2_gss_generator grid)
          start_2
          (s_p_new_collapse_2_gss_state 0 4 0 0 1 12 2))
      ≡ some ts)
    × Covers corner grid_pos (record { i = 0; j = 0 }) ts
collapse_2_partition_example =
    collapse_2_partition grid 0 4 0 0 1 12 2 grid_pos 12 start_2 13 grid-Walks (omega arith)
      (omega arith) (omega arith) (omega arith)
