-- ===== src/Mpi/TwoRanks.antt =====
-- An MPI of two ranks whose operations all add bytes, which is as the standard documents it.
use simple_parallel.Prelude.{ℕ, refl, ap, ◌==◌, ◌+◌, ◌%◌}
use simple_parallel.Mpi.{
  Mpi, MpiDocumented, Combine, Datatype, ReduceArgs, World, elementwise, everybody, from_root,
  mpi_success,
}

-- The sum of the values of two ranks, byte by byte.
abbrev pub two_rank_sum : ℕ → Datatype → Combine
two_rank_sum op t values j = (values 0 j + values 1 j) % 256

abbrev pub sizes : Datatype → ℕ
sizes Datatype.byte = 1
sizes Datatype.double = 8
sizes Datatype.int = 4
sizes Datatype.float = 4
sizes (Datatype.other n) = n

abbrev pub reduce_at : ReduceArgs → ℕ → Datatype → ℕ → ℕ → World → ℕ × World
reduce_at (ReduceArgs.in_place buf) n t op root w =
    (mpi_success, elementwise (sizes t) (λ r. r == root) (two_rank_sum op t) buf n w)
reduce_at (ReduceArgs.send buf) n t op root w = (1, w)

abbrev pub two_ranks : Mpi
two_ranks = record {
  type_size = sizes;
  type_extent = sizes;
  bcast = λ buf n t root w. (mpi_success, elementwise (sizes t) everybody (from_root root) buf n w);
  allreduce_in_place =
      λ buf n t op w. (mpi_success, elementwise (sizes t) everybody (two_rank_sum op t) buf n w);
  reduce = λ args n t op root w. reduce_at (args root) n t op root w;
}

pub two_ranks-MpiDocumented : MpiDocumented two_ranks two_rank_sum
two_ranks-MpiDocumented = record {
  byte_size = refl;
  double_size = refl;
  int_size = refl;
  float_size = refl;
  byte_gapless = refl;
  bcast_lem = λ buf n t root w _. refl;
  allreduce_lem = λ buf n t op w _. refl;
  reduce_lem = λ args buf n t op root w _ e _. ap (λ a. reduce_at a n t op root w) e;
}
