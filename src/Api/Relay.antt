-- ===== src/Api/Relay.antt =====
-- The relay (services/api/src/api/relay): fees, the outbox it keeps, and what it sends.
pub mod Fees
pub mod Outbox
pub mod Chain
pub mod Broadcast
pub mod Submission
pub mod Recovery
pub mod Invariant
