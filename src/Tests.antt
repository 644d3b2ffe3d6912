-- ===== src/Tests.antt =====
-- The tests.
mod Sample
mod Validation
mod Policy
mod Signing
mod Turns
mod Budget
mod Controller
mod Metrics
mod Races
mod Relay
mod Protocol
mod Outbox
mod Executor
mod Termination
