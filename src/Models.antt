-- ===== src/Models.antt =====
-- pkg/models and the message types of gen/go: the data that the services exchange.
pub mod Campaign
pub mod Events
pub mod OpenRtb
pub mod Messages
