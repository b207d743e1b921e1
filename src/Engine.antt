-- ===== src/Engine.antt =====
-- pkg/direktiv: the engine that runs workflow instances.
pub mod Errors
pub mod Services
pub mod World
pub mod Jq
pub mod Instance
pub mod Run
pub mod Retry
pub mod Action
pub mod Logic
pub mod Step
pub mod Wake
pub mod Invoke
pub mod Transfer
pub mod Correlation
pub mod Timers
pub mod Samples
mod Tests
