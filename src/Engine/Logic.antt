-- ===== src/Engine/Logic.antt =====
-- pkg/direktiv/state-logic*.go: what the engine does in a state of each type.
pub mod Noop
pub mod Switch
pub mod Error
pub mod Delay
pub mod Validate
pub mod Action
pub mod Branches
pub mod Parallel
pub mod ForEach
pub mod Events
pub mod Variables
pub mod GenerateEvent
mod Tests
