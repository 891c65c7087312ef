-- ===== src/Config.antt =====
-- crates/secure-tunnel-client/src/config.rs and crates/secure-tunnel-server/src/config.rs.
pub mod Values
pub mod Client
pub mod Server
