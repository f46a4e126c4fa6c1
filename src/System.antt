-- ===== src/System.antt =====
-- The services together.
pub mod Denied
pub mod Starved
pub mod Solvent
pub mod Follower
pub mod Active
pub mod Wired
pub mod Connected
pub mod Writes
pub mod Consistent
pub mod CaughtUp
pub mod Cached
pub mod Resurrected
pub mod Example
mod Tests
