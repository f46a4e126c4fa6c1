-- ===== src/Campaigns.antt =====
-- internal/campaign: the management of advertisers, campaigns and ads over MongoDB, its HTTP
-- handlers, and the events that tell the other services of a change.
pub mod Database
pub mod Repository
pub mod Indexes
pub mod Service
pub mod Handler
pub mod Routes
pub mod Validity
pub mod Events
pub mod Links
pub mod Documents
pub mod Api
pub mod Example
pub mod Stored
mod Tests
