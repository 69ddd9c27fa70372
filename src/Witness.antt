-- ===== src/Witness.antt =====
-- The theorems at concrete inputs.
mod Repository
mod Core
mod Files
mod Providers
mod Queues
mod Service
mod Stored
mod Supervisor
mod Workers
