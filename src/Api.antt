-- ===== src/Api.antt =====
-- media-shuttle-api/app: the entry of tasks, and the operators' actions.
pub mod Model
pub mod Contracts
pub mod Control
pub mod Store
pub mod Service
pub mod Workers
