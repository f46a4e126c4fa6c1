-- ===== src/Clients.antt =====
-- The clients of pkg/kafka and pkg/redis, over the libraries franz-go and go-redis.
pub mod Consumer
pub mod Delivered
pub mod Store
mod Tests
