-- ===== src/Events.antt =====
-- Durable events: backend/app/platform/events.
pub mod RetryPolicy
pub mod Outbox
pub mod Backoff
pub mod Dispatcher
pub mod Idempotency
pub mod Delivery
mod Tests
