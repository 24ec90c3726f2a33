-- ===== src/Recovery.antt =====
-- internal/recovery: the words of a recovery code.
pub mod Words
pub mod Wordlist
pub mod Samples
