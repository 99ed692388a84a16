-- ===== src/EnvController.antt =====
-- internal/controller/floxenv_controller.go and floxenv_restart.go: the reconciler that realises an
-- environment on its node and rolls the workloads that consume it.
pub mod Types
pub mod Status
pub mod Restart
pub mod Reconcile
pub mod Realizations
pub mod Settling
pub mod Quiescence
pub mod Progress
pub mod Queue
pub mod Gates
pub mod Delivery
pub mod Relock
pub mod Stamps
pub mod Slots
pub mod Linked
