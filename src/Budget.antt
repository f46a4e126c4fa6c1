-- ===== src/Budget.antt =====
-- internal/budget, one child per source file, and one for each group of its proofs. Redis and the
-- clock are a record of calls; a method takes the world and returns its results and the new world.
pub mod Keys
pub mod Redis
pub mod Pacing
pub mod Limiter
pub mod Service
pub mod Divergence
pub mod Spend
pub mod Solvent
pub mod History
pub mod Window
pub mod Server
pub mod Grant
pub mod Unchanged
pub mod Gone
pub mod Expired
pub mod Example
mod Tests
