-- ===== src/Image.antt =====
-- pkg/image/image.go: container image references.
pub mod Ref
pub mod Validate
pub mod Parse
