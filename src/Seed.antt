-- ===== src/Seed.antt =====
-- scripts/seed.go: fills a development database through the campaign service.
pub mod Data
pub mod Script
pub mod Bounds
mod Tests
