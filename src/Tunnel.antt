-- ===== src/Tunnel.antt =====
-- What crates/secure-tunnel-client/src/main.rs and crates/secure-tunnel-server/src/main.rs have in
-- common: errors, byte streams, the frame readers, the copying tasks and the telemetry.
pub mod Io
pub mod Frames
pub mod Telemetry
pub mod Close
pub mod Metrics
pub mod Copy
pub mod Keys
pub mod Ingress
pub mod Egress
pub mod Meeting
pub mod Whole
pub mod Relay
pub mod Pair
pub mod Connection
pub mod OuterTls
pub mod Start
pub mod Serve
