-- ===== src/Core.antt =====
-- media-shuttle-core/core: the pipeline and the workers.
pub mod Model
pub mod Env
pub mod Utils
pub mod Contracts
pub mod Queues
pub mod Registry
pub mod Collection
pub mod Repository
pub mod Pipeline
pub mod Service
pub mod Tasks
pub mod Runtime
pub mod Control
pub mod Workers
pub mod Slots
pub mod Supervisor
pub mod Sites
pub mod Downloads
pub mod Uploads
