-- ===== src/Rpc/Tests.antt =====
-- Two sections of a run, and attempts to reserve the heap.
use simple_parallel.Prelude.{ℕ, ◌≡◌, refl, Option, none, some, List, [], ◌∷◌, ◌==◌, if◌then◌else◌}
use simple_parallel.Mapping.{MemOp, Mapper}
use simple_parallel.Rpc.{
  Message, Section, Ending, lead, worker, worker_enter, recv_mem_ops, recv_stack, recv_dirty_page,
  recv_page_ranges, recv_parallel_ctx,
}
use simple_parallel.Rpc.Roundtrip.{worker-lead}
use simple_parallel.Rpc.Reserve.{Reserved, Ends, reserve_heap_area, reserve_heap_area_lem}

abbrev sections : List Section
sections =
    record {
      operations = MemOp.mmap 4096 8192 3 34 0 0 ∷ MemOp.munmap 4096 4096 ∷ [];
      fake_stack = 1 ∷ 2 ∷ [];
      dirty = record { addr = 4096; size = 4096 } ∷ [];
      zeroed = [];
      ctx = 77;
    }
    ∷ record {
      operations = [];
      fake_stack = [];
      dirty = [];
      zeroed = record { begin = 3; count = 2 } ∷ [];
      ctx = 78;
    }
    ∷ []

abbrev new_mapper : Mapper
new_mapper = record { begin = 4096; memory_operations = [] }

worker-lead_example :
    worker 3 (lead sections new_mapper)
    ≡ some (record { sections = sections; ending = Ending.returned 0 })
worker-lead_example = worker-lead sections new_mapper refl

-- A count that does not fit, and a tag that is none.
bad_messages :
    (worker 1 (Message.tag 2 ∷ Message.size 3 ∷ Message.mem_ops [] ∷ [])
      ≡ some (record { sections = []; ending = Ending.waiting }))
    × (worker 1 (Message.tag 9 ∷ []) ≡ some (record { sections = []; ending = Ending.unknown_tag }))
unfolding worker worker_enter recv_mem_ops recv_stack recv_dirty_page recv_page_ranges
    recv_parallel_ctx
bad_messages = (refl, refl)

-- Elsewhere, then a failure, then as asked.
abbrev third : ℕ → Option ℕ
third k = if k == 1 then some 8 else if k == 2 then none else some 4096

third_attempt : reserve_heap_area third 4096 17 0 ≡ some (Reserved.reserved 3)
unfolding reserve_heap_area
third_attempt = refl

reserve_heap_area_example : Ends third 4096 0 (reserve_heap_area third 4096 17 0)
reserve_heap_area_example = reserve_heap_area_lem third 4096
