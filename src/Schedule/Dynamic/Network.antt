-- ===== src/Schedule/Dynamic/Network.antt =====
-- What MPI may do with the messages of include/simple_parallel/cxx/dynamic_schedule.h beyond the step
-- relation. MPI orders two messages of a sender only if the same receive matches both, so that a probe
-- for val_gen_done may see it while a value sent before is still on the way; and `isend` is given the
-- address of the value, which MPI may read until the request is complete, while `m_iter++` already
-- changes it. An implementation may promise more: the two fields.
pub mod Ordered
pub mod Delivered
pub mod Lost
mod Tests
use simple_parallel.Prelude.{ℕ, ◌<◌, Bool, true, false, List, ◌∷◌, ◌++◌, ◌≡◌, arith}
use simple_parallel.Prelude.Family.{put}
use simple_parallel.Schedule.Dynamic.Client.{Message, Client, server_send_val, val_gen_done}
use simple_parallel.Schedule.Dynamic.System.{System, Step, Reach, initial}
use simple_parallel.Schedule.Dynamic.System

pub record Network : Type 0 where
  -- probes see a sender's messages in the order of their `isend`s, whatever their tags
  pub in_order : Bool
  -- `isend` has copied the value when it returns
  pub copies : Bool

module _ {T : Type 0} (net : Network) (n : ℕ) (sizes : ℕ → ℕ) where
  -- A step of the schedule, or of a network that promises less.
  pub data NetStep (s : System T) : System T → Type 0 where
    own : {t : System T} → Step n sizes s t → NetStep s t
    gen_done_overtakes :
        (t : T) (before after : List (Message T)) (i : ℕ)
        → net.in_order ≡ false
        → i < n
        → (s.client i).wire ≡ before ++ server_send_val t ∷ val_gen_done ∷ after
        → NetStep s (record s {
          client =
              put s.client i
                (record (s.client i) { wire = before ++ val_gen_done ∷ server_send_val t ∷ after });
        })
    -- the buffer changes before MPI has read it
    overwritten :
        (t u : T) (before after : List (Message T)) (i : ℕ)
        → net.copies ≡ false
        → i < n
        → (s.client i).wire ≡ before ++ server_send_val t ∷ after
        → NetStep s (record s {
          client =
              put s.client i (record (s.client i) { wire = before ++ server_send_val u ∷ after });
        })
    -- the same when the probe sees the message and its value is still to be fetched
    overwritten_late :
        (t u : T) (before after : List T) (i : ℕ)
        → net.copies ≡ false
        → i < n
        → (s.client i).inbox ≡ before ++ t ∷ after
        → NetStep s (record s {
          client = put s.client i (record (s.client i) { inbox = before ++ u ∷ after });
        })

  pub data NetReach (range : List T) : System T → Type 0 where
    start : NetReach range (initial sizes range)
    later : {s t : System T} → NetReach range s → NetStep s t → NetReach range t

  -- With both promises there are only the schedule's own steps.
  pub promised :
      {range : List T} {s : System T}
      → net.in_order ≡ true
      → net.copies ≡ true
      → NetReach range s
      → Reach n sizes range s
  promised o c start = System.Reach.start
  promised o c (later r (own st)) = System.Reach.later (promised o c r) st
  promised o c (later r (gen_done_overtakes t before after i e lt h)) = absurd (ground arith)
  promised o c (later r (overwritten t u before after i e lt h)) = absurd (ground arith)
  promised o c (later r (overwritten_late t u before after i e lt h)) = absurd (ground arith)

  -- The schedule's own steps are steps on every network.
  pub of_Reach : {range : List T} {s : System T} → Reach n sizes range s → NetReach range s
  of_Reach System.Reach.start = start
  of_Reach (System.Reach.later r st) = later (of_Reach r) (own st)
