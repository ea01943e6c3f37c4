-- ===== src/Schedule/Dynamic/Server.antt =====
-- The class server_handler of include/simple_parallel/cxx/dynamic_schedule.h: the leader's side.
-- Client `i` is the rank `i + 1`. The assertions are left out, as in a build with NDEBUG.
use simple_parallel.Prelude.{
  ℕ, zero, suc, ◌+◌, ◌-◌, ◌≤◌, ◌<◌, min, Bool, true, false, List, [], ◌∷◌, ◌++◌, ◌≡◌, ◌==◌, ◌&&◌,
}
use simple_parallel.Prelude.Family.{put}
use simple_parallel.Schedule.Dynamic.Client.{Client, server_send_val, val_gen_done}

-- Where the leader stands: before the barrier of its constructor; in the loop of
-- `first_time_handle_client_request` at a client, with the requests left to answer of each; in the
-- loop of `handle_client_request`; in the body of the user's loop; in the three loops of
-- `finish_cleanup`; and done.
pub data ServerPc : Type 0 where
  at_barrier : ServerPc
  first_time : (ℕ → ℕ) → ℕ → ServerPc
  handling : ServerPc
  with_value : ServerPc
  notifying : ℕ → ServerPc
  collecting : ℕ → ServerPc
  draining : ServerPc
  finished : ServerPc

pub record Server (T : Type 0) : Type 0 where
  pub pc : ServerPc
  -- the values from `m_iter` to `m_end`
  pub iter : List T
  -- the send requests in the circular buffer of each client
  pub requests : ℕ → ℕ
  -- the values that the leader's own loop got, the last one first
  pub got : List T

-- `std::ranges::all_of(buffer_sizes, handled)` over the first `n` clients.
unfoldable pub all_handled : ℕ → (ℕ → ℕ) → Bool
all_handled zero sizes = true
all_handled (suc n) sizes = (sizes n == 0) && all_handled n sizes

-- `requests.push_back(...)` after `done` completed requests were popped from the front; a full
-- circular buffer forgets its oldest entry.
abbrev pub push_request : ℕ → ℕ → ℕ → ℕ
push_request capacity done pending = min (pending - done + 1) capacity

module _ {T : Type 0} where
  abbrev pub new_server : List T → Server T
  new_server range = record { pc = at_barrier; iter = range; requests = λ _. 0; got = [] }

  -- `isend` of the value at `m_iter` to a client, here with the value that it has at the call;
  -- Schedule/Dynamic/Network.antt has the values that MPI may read later.
  abbrev pub send_value : Client T → T → Client T
  send_value c t = record c { wire = c.wire ++ server_send_val t ∷ [] }

  -- `isend` of `val_gen_done`.
  abbrev pub notify : Client T → Client T
  notify c = record c { wire = c.wire ++ val_gen_done ∷ [] }

  -- One step of the leader that concerns no client.
  pub data ServerMove (n : ℕ) (s : Server T) : Server T → Type 0 where
    -- the test of the outer loop
    round_over :
        {sizes : ℕ → ℕ}
        → s.pc ≡ first_time sizes n
        → all_handled n sizes ≡ false
        → ServerMove n s (record s { pc = first_time sizes 0 })
    all_answered :
        {sizes : ℕ → ℕ}
        → s.pc ≡ first_time sizes n
        → all_handled n sizes ≡ true
        → ServerMove n s (record s { pc = handling })
    skip_client :
        {sizes : ℕ → ℕ} {i : ℕ}
        → s.pc ≡ first_time sizes i
        → i < n
        → sizes i ≡ 0
        → ServerMove n s (record s { pc = first_time sizes (suc i) })
    -- `if (done()) return;`
    ran_out :
        {sizes : ℕ → ℕ} {i k : ℕ}
        → s.pc ≡ first_time sizes i
        → i < n
        → sizes i ≡ suc k
        → s.iter ≡ []
        → ServerMove n s (record s { pc = handling })
    -- no request is visible
    yield :
        {t : T} {rest : List T}
        → s.pc ≡ handling
        → s.iter ≡ t ∷ rest
        → ServerMove n s (record s { pc = with_value })
    all_generated : s.pc ≡ handling → s.iter ≡ [] → ServerMove n s (record s { pc = notifying 0 })
    -- the user's loop has used the value and calls `++`
    next :
        {t : T} {rest : List T}
        → s.pc ≡ with_value
        → s.iter ≡ t ∷ rest
        → ServerMove n s (record s { pc = handling; iter = rest; got = t ∷ s.got })
    all_notified : s.pc ≡ notifying n → ServerMove n s (record s { pc = collecting 0 })
    all_collected : s.pc ≡ collecting n → ServerMove n s (record s { pc = draining })
    -- no request is visible any more
    drained : s.pc ≡ draining → ServerMove n s (record s { pc = finished })

  -- One step of the leader with client `i`, whose request buffer holds `capacity` requests.
  pub data Exchange (capacity i : ℕ) (s : Server T) (c : Client T)
      : Server T → Client T → Type 0 where
    -- an answer in the first round, which receives no request
    answer :
        {sizes : ℕ → ℕ} {k : ℕ} {t : T} {rest : List T}
        → s.pc ≡ first_time sizes i
        → sizes i ≡ suc k
        → s.iter ≡ t ∷ rest
        → Exchange capacity i s c
            (record s {
              pc = first_time (put sizes i k) (suc i);
              iter = rest;
              requests = put s.requests i (push_request capacity 0 (s.requests i));
            })
            (send_value c t)
    -- `handle_client_request` receives a request of the client and answers it; `done` of the
    -- requests at the front of the buffer are complete
    serve :
        {t : T} {rest : List T} (done k : ℕ)
        → s.pc ≡ handling
        → s.iter ≡ t ∷ rest
        → c.asked ≡ suc k
        → done ≤ s.requests i
        → Exchange capacity i s c
            (record s {
              iter = rest;
              requests = put s.requests i (push_request capacity done (s.requests i));
            })
            (send_value (record c { asked = k }) t)
    tell :
        s.pc ≡ notifying i
        → Exchange capacity i s c (record s { pc = notifying (suc i) }) (notify c)
    collect :
        s.pc ≡ collecting i
        → c.told ≡ true
        → Exchange capacity i s c (record s { pc = collecting (suc i) }) (record c { told = false })
    drain :
        (k : ℕ)
        → s.pc ≡ draining
        → c.asked ≡ suc k
        → Exchange capacity i s c s (record c { asked = k })
