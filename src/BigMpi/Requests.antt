-- ===== src/BigMpi/Requests.antt =====
-- src/simple_parallel/bigmpi.cc, sync_areas: every chunk of every area is broadcast by a request,
-- and at most 256 requests are open. Which request `MPI_Waitany` reports is not the program's
-- choice: a function gives the index from the number of the waits before.
use simple_parallel.Prelude.{
  ℕ, zero, suc, ◌+◌, ◌-◌, min, true, false, Option, none, some, List, [], ◌∷◌, ◌++◌, length,
  get_elem?, set, ltb, ◌==◌, if◌then◌else◌, int_max, add64,
}
use simple_parallel.Types.{MemArea}

-- `static_capacity` of the buffer
abbrev pub capacity : ℕ
capacity = 256

-- The open requests; with them, the history: what was started and what was waited for.
pub record Requests (A : Type 0) : Type 0 where
  pub buffer : List A
  pub issued : List A
  pub waited : List A

module _ {A : Type 0} (waitany : ℕ → ℕ) where
  -- `buffer[index] = request` once the request at `index` is complete; there is none at an index
  -- out of range.
  reuse : A → Requests A → Option A → Option (Requests A)
  reuse request s none = none
  reuse request s (some old) = some (record {
    buffer = set s.buffer (waitany (length s.waited)) request;
    issued = s.issued ++ request ∷ [];
    waited = s.waited ++ old ∷ [];
  })

  -- A full static vector throws on `push_back`.
  push_back : A → Requests A → Option (Requests A)
  push_back request s =
      if ltb (length s.buffer) capacity
      then some (record s { buffer = s.buffer ++ request ∷ []; issued = s.issued ++ request ∷ [] })
      else none

  unfoldable pub async_wait_request : A → Requests A → Option (Requests A)
  unfolding reuse push_back
  async_wait_request request s =
      if length s.buffer == capacity
      then reuse request s (get_elem? s.buffer (waitany (length s.waited)))
      else push_back request s

-- `MPI_Waitall`
unfoldable pub waitall : {A : Type 0} → Requests A → Requests A
waitall s = record s { buffer = []; waited = s.waited ++ s.buffer }

-- One `MPI_Ibcast` of bytes: where it starts and how many they are.
pub record Chunk : Type 0 where
  pub begin : ℕ
  pub count : ℕ

module _ (waitany : ℕ → ℕ) where
  -- The loop over one area, from `sent` on; `none` also stands for fuel that is used up.
  unfoldable pub issue_area : ℕ → MemArea → ℕ → Requests Chunk → Option (Requests Chunk)
  issue_area zero mem sent s = none
  issue_area (suc fuel) mem sent s = elim (ltb sent mem.size) [
    | false ↦ some s
    | true ↦
        elim (async_wait_request waitany
          (record { begin = mem.addr + sent; count = min int_max (mem.size - sent) }) s) [
            | none ↦ none
            | some s' ↦ issue_area fuel mem (add64 sent int_max) s'
          ]
  ]

  unfoldable pub issue_areas : ℕ → List MemArea → Requests Chunk → Option (Requests Chunk)
  issue_areas fuel [] s = some s
  issue_areas fuel (mem ∷ mems) s = elim (issue_area fuel mem 0 s) [
    | none ↦ none
    | some s' ↦ issue_areas fuel mems s'
  ]

  unfoldable pub sync_areas : ℕ → List MemArea → Option (Requests Chunk)
  sync_areas fuel mem_areas =
      elim (issue_areas fuel mem_areas (record { buffer = []; issued = []; waited = [] })) [
        | none ↦ none
        | some s ↦ some (waitall s)
      ]
