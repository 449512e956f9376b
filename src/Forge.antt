-- ===== src/Forge.antt =====
-- pkg/forge: what the forge says about a commit's checks.
pub mod Checks
