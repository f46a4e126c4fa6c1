-- ===== src/Scoring.antt =====
-- internal/scoring, one child per source file, and the proofs.
pub mod Store
pub mod Predictor
pub mod Feature
pub mod Service
pub mod Cover
pub mod Cache
pub mod Probability
pub mod Rising
pub mod Numbers
pub mod Example
mod Tests
