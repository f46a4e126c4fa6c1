-- ===== src/Simulator.antt =====
-- internal/simulator: the load generator. Users and Requests make bid requests, Traffic sends them
-- and counts the answers, Reporter reads the counters, Funnel makes the events after a win.
pub mod Random
pub mod Users
pub mod Requests
pub mod Stats
pub mod Counts
mod Answered
pub mod Traffic
pub mod Bursts
pub mod Reporter
pub mod Percentiles
pub mod Seconds
pub mod Quantiles
pub mod Funnel
pub mod Chain
pub mod Picking
pub mod WellFormed
pub mod Served
mod Tests
