-- ===== src/Examples.antt =====
-- The theorems at concrete promotions, plans and workloads.
mod Fixtures
mod Walks
mod Guards
mod Gates
mod Plans
mod Promotions
mod Resolutions
mod Rollouts
mod Histories
mod Checks
mod Merges
mod Polls
mod Edits
