-- ===== src/Schedule/Dynamic/Liveness.antt =====
pub mod Cleanup
pub mod Rounds
pub mod Finish
-- Runs of the dynamic schedule from a state on, and what every state on them satisfies.
use simple_parallel.Prelude.{
  ℕ, ◌<◌, List, ◌≡◌, refl, sym, subst, arith, inl, inr, Bool-cases, ◌==◌, ltb, false,
}
use simple_parallel.Prelude.Family.{put}
use simple_parallel.Schedule.Dynamic.Client.{Client, ClientMove}
use simple_parallel.Schedule.Dynamic.Server.{Server, ServerPc, ServerMove, Exchange}
use simple_parallel.Schedule.Dynamic.System.{System, Step, Reach, later}
use simple_parallel.Schedule.Dynamic.Completion.{SystemInv, Step-Inv, Reach-Inv}
use simple_parallel.Schedule.Dynamic.Phase.Kept.{SystemPhase, Step-Phase, Reach-Phase}

module _ {T : Type 0} (n : ℕ) (sizes : ℕ → ℕ) where
  -- The steps from one state to another.
  pub data Leads : System T → System T → Type 0 where
    stay : {s : System T} → Leads s s
    by_step : {s t u : System T} → Step n sizes s t → Leads t u → Leads s u

  -- The leader can come to its end.
  pub record CanEnd (s : System T) : Type 0 where
    pub end : System T
    pub run : Leads s end
    pub finished : end.server.pc ≡ ServerPc.finished

  pub record Sound (s : System T) : Type 0 where
    pub inv : SystemInv n s
    pub phase : SystemPhase n s

  pub Reach-Sound : {range : List T} {s : System T} → Reach n sizes range s → Sound s
  Reach-Sound r = record { inv = Reach-Inv r; phase = Reach-Phase r }

  pub Reach-Leads :
      {range : List T} {s t : System T} → Reach n sizes range s → Leads s t → Reach n sizes range t
  Reach-Leads r stay = r
  Reach-Leads r (by_step st l) = Reach-Leads (later r st) l

  -- A step, and the way on from the state behind it.
  pub step_on : {s t : System T} → Step n sizes s t → Sound s → (Sound t → CanEnd t) → CanEnd s
  step_on st a go =
      let rest = go (record { inv = Step-Inv st a.inv; phase = Step-Phase st a.phase }) in
      record { end = rest.end; run = by_step st rest.run; finished = rest.finished }

  pub server_on :
      {s : System T} {v : Server T}
      → ServerMove n s.server v
      → Sound s
      → (Sound (record s { server = v }) → CanEnd (record s { server = v }))
      → CanEnd s
  server_on mv = step_on (Step.by_server mv)

  pub exchange_on :
      {s : System T} {v : Server T} {c : Client T} (i : ℕ)
      → i < n
      → Exchange (sizes i) i s.server (s.client i) v c
      → Sound s
      → (Sound (record { server = v; client = put s.client i c })
          → CanEnd (record { server = v; client = put s.client i c }))
      → CanEnd s
  exchange_on i lt x = step_on (Step.exchange i lt x)

  pub client_on :
      {s : System T} {c : Client T} (i : ℕ)
      → i < n
      → ClientMove (s.client i) c
      → Sound s
      → (Sound (record s { client = put s.client i c })
          → CanEnd (record s { client = put s.client i c }))
      → CanEnd s
  client_on i lt mv = step_on (Step.by_client i lt mv)
