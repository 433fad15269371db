-- ===== src/Consumer.antt =====
-- The Redis Streams consumer (server/consumer.py).
pub mod World
pub mod Redis
pub mod Job
pub mod Trace
pub mod Cancel
pub mod Ack
pub mod Outcome
pub mod Delivery
pub mod Batch
pub mod Loop
pub mod Awaited
pub mod Backoff
pub mod Pending
pub mod Drain
pub mod Drained
