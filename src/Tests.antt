-- ===== src/Tests.antt =====
-- The theorems at concrete data, and the definitions run on it.
mod Memory
mod Node
mod Gate
mod Environments
mod Admission
mod References
mod Catalogs
mod Slots
mod Provisioning
mod Sources
mod Process
mod Together
mod Queue
mod Relock
mod Completion
mod Handover
mod Rollout
mod Copies
