-- ===== src/Api/Turns.antt =====
-- The backend's turns (services/api/src/api/turns/executor.py): what a turn stores, the checks of
-- an agent's signed action, and the executor.
pub mod Records
pub mod Rows
pub mod Checks
pub mod Genuine
pub mod Executor
pub mod Recording
pub mod Asking
pub mod Advance
pub mod Invariant
