-- ===== src/Storage/Manifest.antt =====
-- internal/storage/manifest.go: the manifest and its descriptors.
mod Types
mod Valid
mod Check
mod Seen
mod Steps
mod Chains
pub mod Refines
unfoldable pub use Types.*
pub use Valid.*
unfoldable pub use Check.*
