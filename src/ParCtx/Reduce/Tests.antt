-- ===== src/ParCtx/Reduce/Tests.antt =====
-- A sum of ints that no worker changed, on two ranks.
use simple_parallel.Prelude.{ℕ, zero, suc, ◌%◌, ◌≡◌, ◌≢◌, refl, none, some, arith, inl}
use simple_parallel.Types.{ReduceArea, ReduceType, ReduceOp}
use simple_parallel.Mpi.{World, Datatype, mpi_success}
use simple_parallel.Mpi.TwoRanks.{two_ranks, two_rank_sum, two_ranks-MpiDocumented}
use simple_parallel.BigMpi.{reduce}
use simple_parallel.ParCtx.{mem_area}
use simple_parallel.ParCtx.Reduce.{
  identity, is_zero_init_when_sum, init_reduce_area_on_worker, initialised, not_support, no_name,
  refused, memset, zero_identity, c_bool_identity, is_c_bool,
}
use simple_parallel.ParCtx.Reduce.Keeps.{OpDocumented}
use simple_parallel.ParCtx.Reduce.Untouched.{untouched_reduce}

abbrev total : ReduceArea
total = record {
  begin = 100;
  count = 10;
  type = ReduceType.int;
  op = ReduceOp.sum;
  sizeof_type = 4;
  inner_pages = none;
}

abbrev before : World
before zero x = x % 256
before (suc k) x = 7

abbrev started : World
started zero x = x % 256
started (suc k) x = memset (record { addr = 100; size = 40 }) 0 (λ _. 7) x

started_lem :
    (k : ℕ) → k ≢ 0 → init_reduce_area_on_worker total (before k) ≡ initialised (started k)
unfolding init_reduce_area_on_worker identity is_zero_init_when_sum zero_identity c_bool_identity
    is_c_bool mem_area
started_lem zero ne = absurd (ne refl)
started_lem (suc k) ne = refl

unsupported :
    (init_reduce_area_on_worker (record total { op = ReduceOp.max }) (before 1)
      ≡ not_support ReduceType.int ReduceOp.max)
    × (init_reduce_area_on_worker (record total { op = ReduceOp.user 3 }) (before 1) ≡ no_name)
unfolding init_reduce_area_on_worker identity is_zero_init_when_sum zero_identity c_bool_identity
    is_c_bool refused
unsupported = (refl, refl)

two_rank_sum-OpDocumented :
    OpDocumented (two_rank_sum 5 Datatype.int) 4 0 ReduceType.int ReduceOp.sum
two_rank_sum-OpDocumented = record {
  sum_zeros = λ e integer values bytes others j lt.
      omega (arith, bytes j, others 1 j (λ e. omega arith) lt);
  land_true = λ e. absurd (cc);
  lor_false = λ e. absurd (cc);
}

sum_identity : identity ReduceType.int ReduceOp.sum ≡ some 0
unfolding identity is_zero_init_when_sum zero_identity
sum_identity = refl

untouched_reduce_example :
    (w'' : World) × (reduce two_ranks 2 100 10 Datatype.int 5 0 started ≡ some (mpi_success, w''))
    × ((k x : ℕ) → w'' k x ≡ started k x)
untouched_reduce_example =
    untouched_reduce two_ranks-MpiDocumented 5 Datatype.int total 0 0 1 before started sum_identity
      (inl tt) two_rank_sum-OpDocumented refl refl (omega arith) (omega arith) (omega arith)
      (λ x within. omega arith) started_lem
