-- ===== src/Engine/Correlation.antt =====
-- pkg/direktiv/events.go and db-events.go: the listeners for events, the events that are kept until
-- all of a listener's events have come, and what an event that arrives does to them. A jsonb object
-- and a Go map are the list of their entries.
pub mod Rows
pub mod Handle
pub mod Distinct
pub mod Cases
pub mod Fires
pub mod First
pub mod Pair
pub mod Partial
pub mod Register
mod Tests
