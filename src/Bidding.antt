-- ===== src/Bidding.antt =====
-- internal/bidding/service.go and handler.go: the hot path, from the decoded request to the response.
pub mod Peers
pub mod Build
pub mod Process
pub mod Accounting
pub mod Price
pub mod Handler
pub mod Pacing
pub mod ActiveSet
pub mod Example
mod Tests
