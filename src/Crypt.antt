-- ===== src/Crypt.antt =====
-- internal/crypt: the wire format of an envelope.
pub mod Wire
pub mod Door
pub mod Envelope
pub mod Kdf
pub mod Wrap
pub mod Payload
pub mod Samples
