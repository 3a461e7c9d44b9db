-- ===== src/Command.antt =====
-- cmd/devgate: the assembly of the routes, the process and the observers.
pub mod Picking
pub mod Assembly
pub mod Accepted
pub mod Runtime
pub mod Responder
pub mod Process
pub mod HealthObserver
pub mod PassiveObserver
