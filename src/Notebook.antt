-- ===== src/Notebook.antt =====
-- internal/notebook: checkpoints, publications and pulls.
pub mod Checkpoint
pub mod Publication
pub mod Publish
pub mod Commit
pub mod Attempt
pub mod History
pub mod Cleanup
pub mod Backoff
pub mod Samples
