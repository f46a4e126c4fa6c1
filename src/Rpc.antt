-- ===== src/Rpc.antt =====
-- The gRPC stubs of gen/go, with the codec of pkg/codec, and the clients of internal/bidding.
pub mod Wire
pub mod Stubs
pub mod Clients
pub mod Calls
pub mod Delivery
pub mod Example
mod Tests
