-- ===== src/Rpc.antt =====
-- What the leader broadcasts and the workers do with it: enter_parallel_impl and the send functions
-- of src/simple_parallel/leader.cc, and the worker loop of src/simple_parallel/worker.cc. A message
-- is one broadcast; that both sides make it with the same size is what the counts are for.
pub mod Roundtrip
pub mod Reserve
mod Tests
use simple_parallel.Prelude.{
  ℕ, zero, suc, ◌+◌, Bool, true, false, Option, none, some, List, [], ◌∷◌, ◌++◌, length, ltb, ◌==◌,
  if◌then◌else◌, ◌>>=◌,
}
use simple_parallel.Types.{MemArea, PteRange}
use simple_parallel.Mapping.{MemOp, Mapper}

-- `rpc_tag`
abbrev pub exit_tag : ℕ
exit_tag = 0

abbrev pub run_function_without_context_tag : ℕ
run_function_without_context_tag = 1

abbrev pub enter_parallel_tag : ℕ
enter_parallel_tag = 2

pub data Message : Type 0 where
  tag : ℕ → Message
  size : ℕ → Message
  mem_ops : List MemOp → Message
  stack : List ℕ → Message
  mem_areas : List MemArea → Message
  page_ranges : List PteRange → Message
  parallel_ctx : ℕ → Message

-- What one section hands over: the operations on the address space, the bytes of the stack, the
-- areas of dirty pages, the ranges of zeroed pages and the context to go on with.
pub record Section : Type 0 where
  pub operations : List MemOp
  pub fake_stack : List ℕ
  pub dirty : List MemArea
  pub zeroed : List PteRange
  pub ctx : ℕ

unfoldable pub send_mem_ops : List MemOp → List Message
send_mem_ops ops = Message.size (length ops) ∷ Message.mem_ops ops ∷ []

unfoldable pub send_stack : List ℕ → List Message
send_stack bytes = Message.stack bytes ∷ []

unfoldable pub send_dirty_page : List MemArea → List Message
send_dirty_page areas = Message.size (length areas) ∷ Message.mem_areas areas ∷ []

unfoldable pub send_zeroed_page : List PteRange → List Message
send_zeroed_page ranges = Message.size (length ranges) ∷ Message.page_ranges ranges ∷ []

-- The operations are moved out of the mapper, which has none left.
unfoldable pub enter_parallel_impl : Section → Mapper → List Message × Mapper
unfolding send_mem_ops send_stack send_dirty_page send_zeroed_page
enter_parallel_impl s m = (
  Message.tag enter_parallel_tag ∷ send_mem_ops m.memory_operations
      ++ send_stack s.fake_stack
      ++ send_dirty_page s.dirty
      ++ send_zeroed_page s.zeroed
      ++ Message.parallel_ctx s.ctx ∷ [],
  record m { memory_operations = [] },
)

-- A run of the leader: before each section the proxies record its operations; then the exit.
unfoldable pub lead : List Section → Mapper → List Message
unfolding enter_parallel_impl
lead [] m = Message.tag exit_tag ∷ []
lead (s ∷ ss) m =
    let (messages, m') =
      enter_parallel_impl s
        (record m { memory_operations = m.memory_operations ++ s.operations }) in
    messages ++ lead ss m'

-- The worker's side: each receive takes what it expects, of the size that was announced.
unfoldable pub recv_mem_ops : List Message → Option (List MemOp × List Message)
recv_mem_ops (Message.size n ∷ Message.mem_ops ops ∷ rest) =
    if length ops == n then some (ops, rest) else none
recv_mem_ops _ = none

unfoldable pub recv_stack : List Message → Option (List ℕ × List Message)
recv_stack (Message.stack bytes ∷ rest) = some (bytes, rest)
recv_stack _ = none

unfoldable pub recv_dirty_page : List Message → Option (List MemArea × List Message)
recv_dirty_page (Message.size n ∷ Message.mem_areas areas ∷ rest) =
    if length areas == n then some (areas, rest) else none
recv_dirty_page _ = none

unfoldable pub recv_page_ranges : List Message → Option (List PteRange × List Message)
recv_page_ranges (Message.size n ∷ Message.page_ranges ranges ∷ rest) =
    if length ranges == n then some (ranges, rest) else none
recv_page_ranges _ = none

unfoldable pub recv_parallel_ctx : List Message → Option (ℕ × List Message)
recv_parallel_ctx (Message.parallel_ctx ctx ∷ rest) = some (ctx, rest)
recv_parallel_ctx _ = none

-- How the worker ends: with a return code, with an exception, or waiting for a broadcast that does
-- not come or is not the one it waits for.
pub data Ending : Type 0 where
  returned : ℕ → Ending
  not_implemented unknown_tag : Ending
  waiting : Ending

-- The sections that the worker took part in, and how it ended.
pub record Worked : Type 0 where
  pub sections : List Section
  pub ending : Ending

-- `enter_parallel_impl` of the worker; it returns when the section is left.
unfoldable pub worker_enter : List Message → Option (Section × List Message)
unfolding recv_mem_ops recv_stack recv_dirty_page recv_page_ranges recv_parallel_ctx
worker_enter ms = do
  (ops, m1) ← recv_mem_ops ms
  (bytes, m2) ← recv_stack m1
  (areas, m3) ← recv_dirty_page m2
  (ranges, m4) ← recv_page_ranges m3
  (ctx, m5) ← recv_parallel_ctx m4
  some (
    record { operations = ops; fake_stack = bytes; dirty = areas; zeroed = ranges; ctx = ctx },
    m5,
  )

abbrev pub log : Section → Worked → Worked
log s w = record w { sections = s ∷ w.sections }

-- `while (true)`, a round for each tag
unfoldable pub worker : ℕ → List Message → Option Worked
unfolding worker_enter
worker zero ms = none
worker (suc fuel) (Message.tag t ∷ ms) =
    if t == exit_tag
    then some (record { sections = []; ending = Ending.returned 0 })
    else if t == run_function_without_context_tag
    then some (record { sections = []; ending = Ending.not_implemented })
    else if t == enter_parallel_tag
    then elim (worker_enter ms) [
      | none ↦ some (record { sections = []; ending = Ending.waiting })
      | some (s, rest) ↦ elim (worker fuel rest) [ none ↦ none | some w ↦ some (log s w) ]
    ]
    else some (record { sections = []; ending = Ending.unknown_tag })
worker (suc fuel) ms = some (record { sections = []; ending = Ending.waiting })
