-- ===== src/Gitops.antt =====
-- pkg/gitops: the repository's manifests, and what a promotion or a deploy changes in them.
pub mod Types
pub mod Prefix
pub mod Editable
pub mod Order
pub mod Deploy
pub mod Choose
pub mod Apply
pub mod Verify
pub mod Promote
