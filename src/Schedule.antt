-- ===== src/Schedule.antt =====
-- Task generators and the dynamic scheduler that hands their tasks to the ranks.
pub mod TaskRange
pub mod Gss
pub mod Dynamic
pub mod Threads
mod Tests
