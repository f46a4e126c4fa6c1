-- ===== src/Commands.antt =====
-- cmd: what each command sets up, starts and closes.
pub mod Process
pub mod Services
pub mod Simulate
pub mod Orderly
mod Tests
