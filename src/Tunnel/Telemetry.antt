-- ===== src/Tunnel/Telemetry.antt =====
-- crates/secure-tunnel-client/src/main.rs and crates/secure-tunnel-server/src/main.rs: why a
-- connection closed, and what the process counts.
use secure_tunnel.Prelude.{ℕ, ◌+◌, ◌%◌, ◌^◌, Bool}

-- `AtomicU64::fetch_add`, which wraps around.
abbrev pub u64_mod : ℕ
u64_mod = 2 ^ 64

unfoldable pub fetch_add : ℕ → ℕ → ℕ
fetch_add counter n = (counter + n) % u64_mod

-- The instant at which the connection was opened is a number of milliseconds.
pub record ConnectionTelemetry : Type 0 where
  pub id : ℕ
  pub opened_at : ℕ
  pub handshake_succeeded : Bool
  pub bytes_client_to_server : ℕ
  pub bytes_server_to_client : ℕ
