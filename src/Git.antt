-- ===== src/Git.antt =====
-- internal/git: paths, path policies, merges and conflict markers.
pub mod Path
pub mod Entries
pub mod Policy
pub mod Markers
pub mod Snapshot
pub mod Pin
pub mod Samples
