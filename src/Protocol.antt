-- ===== src/Protocol.antt =====
-- The protocol package (packages/protocol/src/negotiation_protocol): its primitive values, and
-- the tables of reason codes.
pub mod Values
pub mod Decimal
pub mod Digests
pub mod Reasons
