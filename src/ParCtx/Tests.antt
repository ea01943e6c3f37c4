-- ===== src/ParCtx/Tests.antt =====
-- Parallel sections with reduce areas that overlap, and contexts in an order that is not a stack's.
use simple_parallel.Prelude.{
  ℕ, ◌+◌, ◌≤◌, ◌≡◌, ◌⊎◌, refl, true, false, none, some, List, [], ◌∷◌, arith,
}
use simple_parallel.Types.{ReduceArea, ReduceType, ReduceOp}
use simple_parallel.ParCtx.{
  Error, Suffix, Calls, verify_reduces_no_overlap, verify_from, verify_against, mem_area_overlap,
  mem_area, back, number_with_ordinal_suffix, do_enter_parallel, do_exit_parallel, reduce_all,
  entering, verified,
}
use simple_parallel.ParCtx.Overlap.{AllDisjoint, Named, verify_reduces_no_overlap_lem}
use simple_parallel.ParCtx.Sections.{
  Leader, Operation, construct_par_ctx, constructed, take_out, keep, destructed, destroy,
  destruct_par_ctx, operate, run, entered, start,
}
use simple_parallel.ParCtx.Sections.Exclusive.{one_section}
use simple_parallel.ParCtx.Sections.Shut.{overlap_shuts}
use simple_parallel.ParCtx.Fortran.{Call, use_ctx, new_fortran_ctx, as_number, entered_once}

abbrev ints_at : ℕ → ReduceArea
ints_at begin = record {
  begin = begin;
  count = 10;
  type = ReduceType.int;
  op = ReduceOp.sum;
  sizeof_type = 4;
  inner_pages = none;
}

abbrev overlapping : List ReduceArea
overlapping = ints_at 100 ∷ ints_at 1000 ∷ ints_at 139 ∷ []

overlapping_run :
    verify_reduces_no_overlap overlapping ≡ some (Error.overlaps (1, Suffix.st) (3, Suffix.rd))
unfolding verify_reduces_no_overlap verify_from verify_against mem_area_overlap mem_area back
    number_with_ordinal_suffix
overlapping_run = refl

verify_reduces_no_overlap_example :
    ((verify_reduces_no_overlap overlapping ≡ none) × AllDisjoint overlapping)
    ⊎ ((e : Error) × (verify_reduces_no_overlap overlapping ≡ some e) × Named overlapping e)
verify_reduces_no_overlap_example =
    verify_reduces_no_overlap_lem overlapping
      ((omega arith, omega arith), ((omega arith, omega arith), ((omega arith, omega arith), tt)))

abbrev fine : Calls
fine = record { getcontext = true; swapcontext = true; reduce = λ _. 0 }

-- A section, a context that does not enter, a nested section, and the first one left before the
-- second.
abbrev out_of_order : List Operation
out_of_order =
    Operation.construct fine true (ints_at 100 ∷ [])
    ∷ Operation.construct fine false []
    ∷ Operation.construct fine true []
    ∷ Operation.destruct fine 1
    ∷ Operation.construct fine true []
    ∷ []

abbrev left_open : Leader
left_open = record {
  in_parallel = true;
  contexts =
      record { comm_size = 4; reduces = []; entered_parallel = true }
      ∷ record { comm_size = 1; reduces = []; entered_parallel = false }
      ∷ [];
}

interleaved_lem : run 4 out_of_order start ≡ some left_open
unfolding run operate construct_par_ctx constructed destruct_par_ctx destroy destructed take_out
    keep do_enter_parallel do_exit_parallel entering verified verify_reduces_no_overlap verify_from
    verify_against reduce_all
interleaved_lem = refl

one_section_example :
    (entered left_open.contexts ≤ 1)
    × (left_open.in_parallel ≡ false → entered left_open.contexts ≡ 0)
one_section_example = one_section 4 out_of_order left_open interleaved_lem

none_entered : entered start.contexts ≡ 0
unfolding entered
none_entered = refl

overlap_shuts_example :
    ((construct_par_ctx 4 fine true overlapping start).0
      ≡ some (Error.overlaps (1, Suffix.st) (3, Suffix.rd)))
    × ((ops : List Operation) (l' : Leader) (calls' : Calls) (reduces' : List ReduceArea)
        → run 4 ops (construct_par_ctx 4 fine true overlapping start).1 ≡ some l'
        → (construct_par_ctx 4 calls' true reduces' l').0 ≡ some Error.nested_parallel)
overlap_shuts_example =
    overlap_shuts 4 fine overlapping (Error.overlaps (1, Suffix.st) (3, Suffix.rd)) start refl refl
      refl none_entered overlapping_run

entered_once_example :
    let ctx =
      use_ctx
        (Call.enter fine true ∷ Call.enter fine true ∷ Call.leave fine ∷ [])
        (new_fortran_ctx 4)
        false in
    (ctx.enters ≤ 1) × (ctx.exits + as_number ctx.m_in_parallel ≡ ctx.enters)
entered_once_example =
    entered_once (Call.enter fine true ∷ Call.enter fine true ∷ Call.leave fine ∷ []) 4 false
