-- ===== src/Storage.antt =====
-- internal/storage: keys, the manifest, and uploads.
pub mod Key
pub mod Manifest
pub mod Parse
pub mod Json
pub mod Strict
pub mod Decode
pub mod Names
pub mod Metadata
pub mod Store
pub mod Current
pub mod Fake
pub mod Upload
pub mod Samples
