-- ===== src/Api.antt =====
-- The backend (services/api/src/api): the run's operational states, its figures and the relay.
pub mod Effects
pub mod Controller
pub mod Metrics
pub mod Relay
pub mod Turns
