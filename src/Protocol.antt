-- ===== src/Protocol.antt =====
-- crates/secure-tunnel/src/lib.rs: the preface, the frames, the Noise handshake and the records.
pub mod Error
pub mod Preface
pub mod Frame
pub mod Noise
pub mod Session
pub mod Agreement
pub mod Builder
pub mod Client
pub mod Server
