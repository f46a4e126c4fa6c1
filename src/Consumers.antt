-- ===== src/Consumers.antt =====
-- internal/consumer and the dispatcher of cmd/consumer: ad events from Kafka become rows that are
-- written to ClickHouse in batches.
pub mod Rows
pub mod Writer
pub mod Handlers
pub mod Conserve
pub mod Drain
mod Tests
