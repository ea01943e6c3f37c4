-- ===== src/Schedule/Dynamic/Handlers.antt =====
-- The constructors of dynamic_schedule and of its iterator, which choose a handler, and the class
-- single_rank_handler, of include/simple_parallel/cxx/dynamic_schedule.h.
use simple_parallel.Prelude.{
  ℕ, zero, suc, Bool, true, false, Option, none, some, List, [], ◌∷◌, ◌==◌, if◌then◌else◌, ◌>>=◌,
}

-- `m_buffer_size`
unfoldable pub new_buffer_size : (hardware_concurrency buffer_size : ℕ) → ℕ
new_buffer_size hardware_concurrency buffer_size =
    if buffer_size == 0 then hardware_concurrency else buffer_size

-- `m_handler`, with what its constructor gets: the buffer sizes of all ranks, or one's own.
pub data Handler : Type 0 where
  single_rank_handler : Handler
  server_handler : List ℕ → Handler
  client_handler : ℕ → Handler

-- What each rank passes to `all_gather`.
abbrev pub gathered : (ℕ → ℕ) → ℕ → ℕ
gathered buffer_size rank = if rank == 0 then 0 else buffer_size rank

-- `iterator(range, comm, buffer_size)` on a rank, when every rank `k` calls it with `buffer_size k`.
unfoldable pub new_iterator : ((ℕ → ℕ) → List ℕ) → (comm_size rank : ℕ) → (ℕ → ℕ) → Handler
new_iterator all_gather comm_size rank buffer_size =
    if comm_size == 1
    then single_rank_handler
    else if rank == 0
    then server_handler (all_gather (gathered buffer_size))
    else client_handler (gathered buffer_size rank)

module _ {T : Type 0} where
  -- `single_rank_handler`, as the values from `m_iter` to `m_end`; `*m_end` is undefined.
  unfoldable pub done : List T → Bool
  done [] = true
  done (t ∷ ts) = false

  unfoldable pub get_value : List T → Option T
  get_value [] = none
  get_value (t ∷ ts) = some t

  unfoldable pub next : List T → List T
  next [] = []
  next (t ∷ ts) = ts

  -- The values that `for (auto &&v : schedule)` gets, with fuel for so many tests of its end.
  unfoldable pub single_rank_loop : ℕ → List T → Option (List T)
  unfolding done get_value next
  single_rank_loop zero iter = none
  single_rank_loop (suc fuel) iter =
      let rest = single_rank_loop fuel (next iter) in
      if done iter then some [] else (do v ← get_value iter; vs ← rest; some (v ∷ vs))
