-- ===== src/Model.antt =====
-- pkg/model: workflow definitions, read from YAML and validated.
pub mod Value
pub mod Enums
pub mod StateType
pub mod StartType
pub mod Pattern
pub mod Common
pub mod Transitions
pub mod State
pub mod Start
pub mod Workflow
pub mod Samples
pub mod Tests
