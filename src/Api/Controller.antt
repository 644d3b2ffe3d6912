-- ===== src/Api/Controller.antt =====
-- The run controller (services/api/src/api/controller).
pub mod States
pub mod Termination
