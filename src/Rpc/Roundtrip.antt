-- ===== src/Rpc/Roundtrip.antt =====
-- The worker receives what the leader sends.
use simple_parallel.Prelude.{ℕ, suc, ◌≡◌, refl, some, List, [], ◌∷◌, ◌++◌, length, ==_refl}
use simple_parallel.Types.{MemArea, PteRange}
use simple_parallel.Mapping.{MemOp, Mapper}
use simple_parallel.Rpc.{
  Message, Section, send_mem_ops, send_stack, send_dirty_page, send_zeroed_page,
  enter_parallel_impl, lead, recv_mem_ops, recv_stack, recv_dirty_page, recv_page_ranges,
  recv_parallel_ctx, worker_enter, worker, Ending,
}

module _ (rest : List Message) where
  recv-send_mem_ops :
      (ops : List MemOp) → recv_mem_ops (send_mem_ops ops ++ rest) ≡ some (ops, rest)
  unfolding recv_mem_ops send_mem_ops
  recv-send_mem_ops ops = rw (==_refl (length ops)) refl

  recv-send_dirty_page :
      (areas : List MemArea) → recv_dirty_page (send_dirty_page areas ++ rest) ≡ some (areas, rest)
  unfolding recv_dirty_page send_dirty_page
  recv-send_dirty_page areas = rw (==_refl (length areas)) refl

  recv-send_zeroed_page :
      (ranges : List PteRange)
      → recv_page_ranges (send_zeroed_page ranges ++ rest) ≡ some (ranges, rest)
  unfolding recv_page_ranges send_zeroed_page
  recv-send_zeroed_page ranges = rw (==_refl (length ranges)) refl

enter_received :
    (ops : List MemOp) (bytes : List ℕ) (areas : List MemArea) (ranges : List PteRange) (ctx : ℕ)
    (rest : List Message)
    → worker_enter (
        send_mem_ops ops
        ++ send_stack bytes
        ++ send_dirty_page areas
        ++ send_zeroed_page ranges
        ++ Message.parallel_ctx ctx ∷ rest)
      ≡ some (
        record { operations = ops; fake_stack = bytes; dirty = areas; zeroed = ranges; ctx = ctx },
        rest,
      )
unfolding worker_enter send_stack recv_stack recv_parallel_ctx send_mem_ops send_dirty_page
enter_received ops bytes areas ranges ctx rest =
    rw (recv-send_mem_ops _ ops)
      (rw (recv-send_dirty_page _ areas) (rw (recv-send_zeroed_page _ ranges) refl))

-- A worker with a round for every section and one for the exit takes part in exactly the leader's
-- sections, in order, each with the operations on the address space that were recorded before it
-- and after the one before, its stack, dirty areas, zeroed ranges and context; then it returns 0.
pub worker-lead :
    (ss : List Section) (m : Mapper)
    → m.memory_operations ≡ []
    → worker (suc (length ss)) (lead ss m)
      ≡ some (record { sections = ss; ending = Ending.returned 0 })
unfolding worker lead enter_parallel_impl
worker-lead [] m e = refl
worker-lead (s ∷ ss) m e =
    rw (e, enter_received s.operations s.fake_stack s.dirty s.zeroed s.ctx _)
      (rw (worker-lead ss (record m { memory_operations = [] }) refl) refl)
