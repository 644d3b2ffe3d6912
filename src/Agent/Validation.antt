-- ===== src/Agent/Validation.antt =====
-- Validation of a response (services/agent/src/agent/validation): codes.py, decisions.py,
-- structure.py and mandate.py.
pub mod Decisions
pub mod Structure
pub mod Mandate
