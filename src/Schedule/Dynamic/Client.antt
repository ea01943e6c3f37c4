-- ===== src/Schedule/Dynamic/Client.antt =====
-- The class client_handler of include/simple_parallel/cxx/dynamic_schedule.h, and the messages
-- between one client and the leader. What `iprobe` sees is what has arrived, here in the order of the
-- sends; Schedule/Dynamic/Network.antt adds the other orders that MPI allows.
use simple_parallel.Prelude.{ℕ, suc, ◌+◌, Bool, true, false, List, [], ◌∷◌, ◌++◌, ◌≡◌}

-- From the leader: `server_send_val` with its value, or `val_gen_done`.
pub data Message (T : Type 0) : Type 0 where
  server_send_val : T → Message T
  val_gen_done : Message T

-- Where the client stands: in its constructor with so many requests to send, before the barrier,
-- before the test of the loop in `next`, before `leader_gen_finished`, before the second test, in
-- the body of the user's loop, and done.
pub data ClientPc : Type 0 where
  requesting : ℕ → ClientPc
  at_barrier : ClientPc
  probing : ClientPc
  checking : ClientPc
  rechecking : ClientPc
  with_value : ClientPc
  finished : ClientPc

pub record Client (T : Type 0) : Type 0 where
  pub pc : ClientPc
  -- `m_leader_gen_finished`
  pub leader_gen_finished : Bool
  -- on the way to the client, in order
  pub wire : List (Message T)
  -- arrived `server_send_val` messages, in order
  pub inbox : List T
  -- whether `val_gen_done` has arrived and was not received
  pub gen_done_arrived : Bool
  -- `client_request_val` messages that the leader has not received
  pub asked : ℕ
  -- whether a `client_finished` message waits for the leader
  pub told : Bool
  -- the values that the user's loop got, the last one first
  pub got : List T

module _ {T : Type 0} where
  abbrev pub new_client : ℕ → Client T
  new_client buffer_size = record {
    pc = requesting buffer_size;
    leader_gen_finished = false;
    wire = [];
    inbox = [];
    gen_done_arrived = false;
    asked = 0;
    told = false;
    got = [];
  }

  -- `m_comm.recv` of a value, and the request that replaces the one that was answered.
  abbrev pub receive : Client T → T → List T → Client T
  receive c t rest = record c {
    pc = with_value;
    inbox = rest;
    asked = c.asked + 1;
    got = t ∷ c.got;
  }

  -- `m_totally_finished = true`, and the message to the leader.
  abbrev pub finish : Client T → Client T
  finish c = record c { pc = finished; told = true }

  -- One step of the client, or the arrival of a message.
  pub data ClientMove (c : Client T) : Client T → Type 0 where
    request :
        {k : ℕ}
        → c.pc ≡ requesting (suc k)
        → ClientMove c (record c { pc = requesting k; asked = c.asked + 1 })
    enter_barrier : c.pc ≡ requesting 0 → ClientMove c (record c { pc = at_barrier })
    -- `has_val_in_buffer()` holds: the loop ends and the value is received
    take :
        {t : T} {rest : List T}
        → c.pc ≡ probing
        → c.inbox ≡ t ∷ rest
        → ClientMove c (receive c t rest)
    none_yet : c.pc ≡ probing → c.inbox ≡ [] → ClientMove c (record c { pc = checking })
    -- `leader_gen_finished()`, on the flag, on the message, and on neither
    known :
        c.pc ≡ checking → c.leader_gen_finished ≡ true → ClientMove c (record c { pc = rechecking })
    learn :
        c.pc ≡ checking
        → c.leader_gen_finished ≡ false
        → c.gen_done_arrived ≡ true
        → ClientMove c
            (record c { pc = rechecking; leader_gen_finished = true; gen_done_arrived = false })
    go_on :
        c.pc ≡ checking
        → c.leader_gen_finished ≡ false
        → c.gen_done_arrived ≡ false
        → ClientMove c (record c { pc = probing })
    -- the second `has_val_in_buffer()`
    take_late :
        {t : T} {rest : List T}
        → c.pc ≡ rechecking
        → c.inbox ≡ t ∷ rest
        → ClientMove c (receive c t rest)
    stop : c.pc ≡ rechecking → c.inbox ≡ [] → ClientMove c (finish c)
    -- the user's loop calls `++`
    next : c.pc ≡ with_value → ClientMove c (record c { pc = probing })
    value_arrives :
        {t : T} {rest : List (Message T)}
        → c.wire ≡ server_send_val t ∷ rest
        → ClientMove c (record c { wire = rest; inbox = c.inbox ++ t ∷ [] })
    gen_done_arrives :
        {rest : List (Message T)}
        → c.wire ≡ val_gen_done ∷ rest
        → ClientMove c (record c { wire = rest; gen_done_arrived = true })
