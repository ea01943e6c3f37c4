-- ===== src/Schedule/Dynamic.antt =====
-- include/simple_parallel/cxx/dynamic_schedule.h: the leader hands the values of a range to the
-- other ranks on request. The ranks run interleaved, one MPI call at a time.
pub mod Client
pub mod Server
pub mod System
pub mod Conserve
pub mod Channel
pub mod Invariant
pub mod Completion
pub mod FirstRound
pub mod Phase
pub mod Liveness
pub mod Bound
pub mod Network
pub mod Handlers
pub mod Example
mod Tests
