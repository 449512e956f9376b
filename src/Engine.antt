-- ===== src/Engine.antt =====
-- internal/engine: the promotion engine, one child module for each of its concerns.
pub mod StepName
pub mod Errors
pub mod State
pub mod History
pub mod Landing
pub mod Drive
pub mod Observe
pub mod Gate
pub mod Lists
pub mod Policy
pub mod Review
pub mod Identity
pub mod Action
pub mod Remote
pub mod OwnPr
pub mod Reverted
pub mod Merge
pub mod Write
