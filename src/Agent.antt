-- ===== src/Agent.antt =====
-- The agent service (services/agent/src/agent): from an observation to a signed action.
pub mod Consistency
pub mod Json
pub mod Observation
pub mod Validation
pub mod Policy
pub mod Signing
pub mod Turns
pub mod Budget
