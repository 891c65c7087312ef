-- ===== src/Tunnel/Metrics.antt =====
-- `TunnelMetrics` of crates/secure-tunnel-client/src/main.rs; the same, but for the order of a load,
-- in crates/secure-tunnel-server/src/main.rs.
pub mod Balance
pub mod Active
use secure_tunnel.Prelude.{
  ℕ, ◌+◌, ◌-◌, ◌%◌, ◌≡◌, refl, Bool, true, false, if◌then◌else◌, Text, codes, ltb, Result,
}
use secure_tunnel.Tunnel.Io.{Error}
use secure_tunnel.Tunnel.Close.{
  CloseReason, peer_closed, shutdown, idle_timeout, outer_tls_failed, noise_handshake_failed,
  decrypt_failed, destination_connect_failed, unauthorized_client, transport_error, reason_of,
  as_str, stage_of,
}
use secure_tunnel.Tunnel.Telemetry.{ConnectionTelemetry, fetch_add, u64_mod}

pub record TunnelMetrics : Type 0 where
  pub active_connections : ℕ
  pub next_connection_id : ℕ
  pub handshake_success_total : ℕ
  pub handshake_failure_total : ℕ
  pub unauthorized_client_total : ℕ
  pub decrypt_failure_total : ℕ
  pub connections_total : ℕ
  pub bytes_in_total : ℕ
  pub bytes_out_total : ℕ
  pub connection_duration_ms_total : ℕ
  pub destination_connect_failure_total : ℕ

-- `TunnelMetrics::default()`
abbrev pub default : TunnelMetrics
default = record {
  active_connections = 0;
  next_connection_id = 0;
  handshake_success_total = 0;
  handshake_failure_total = 0;
  unauthorized_client_total = 0;
  decrypt_failure_total = 0;
  connections_total = 0;
  bytes_in_total = 0;
  bytes_out_total = 0;
  connection_duration_ms_total = 0;
  destination_connect_failure_total = 0;
}

-- `fetch_sub(1)`
unfoldable pub fetch_sub_one : ℕ → ℕ
fetch_sub_one counter = (counter + u64_mod - 1) % u64_mod

abbrev pub new_telemetry : ℕ → ℕ → ConnectionTelemetry
new_telemetry id now = record {
  id = id;
  opened_at = now;
  handshake_succeeded = false;
  bytes_client_to_server = 0;
  bytes_server_to_client = 0;
}

-- `fetch_add` returns the old value, and the sum that makes the id is an unchecked `+`: it wraps in
-- a release build.
pub connection_opened : TunnelMetrics → ℕ → ConnectionTelemetry × TunnelMetrics
unfolding fetch_add
connection_opened m now = (
  new_telemetry (fetch_add m.next_connection_id 1) now,
  record m {
    active_connections = fetch_add m.active_connections 1;
    connections_total = fetch_add m.connections_total 1;
    next_connection_id = fetch_add m.next_connection_id 1;
  },
)

-- `reason == CloseReason::…`
abbrev pub is_shutdown : CloseReason → Bool
is_shutdown shutdown = true
is_shutdown _ = false

abbrev pub is_unauthorized : CloseReason → Bool
is_unauthorized unauthorized_client = true
is_unauthorized _ = false

abbrev pub is_decrypt_failed : CloseReason → Bool
is_decrypt_failed decrypt_failed = true
is_decrypt_failed _ = false

abbrev pub is_destination_failed : CloseReason → Bool
is_destination_failed destination_connect_failed = true
is_destination_failed _ = false

abbrev pub add_if : Bool → ℕ → ℕ
add_if true counter = fetch_add counter 1
add_if false counter = counter

unfoldable pub connection_closed :
    TunnelMetrics → ConnectionTelemetry → CloseReason → ℕ → TunnelMetrics
unfolding fetch_add fetch_sub_one
connection_closed m telemetry reason duration_ms = record m {
  active_connections = fetch_sub_one m.active_connections;
  handshake_success_total = add_if telemetry.handshake_succeeded m.handshake_success_total;
  handshake_failure_total =
      if telemetry.handshake_succeeded
      then m.handshake_failure_total
      else if is_shutdown reason
      then m.handshake_failure_total
      else fetch_add m.handshake_failure_total 1;
  unauthorized_client_total = add_if (is_unauthorized reason) m.unauthorized_client_total;
  decrypt_failure_total = add_if (is_decrypt_failed reason) m.decrypt_failure_total;
  destination_connect_failure_total =
      add_if (is_destination_failed reason) m.destination_connect_failure_total;
  bytes_in_total = fetch_add m.bytes_in_total telemetry.bytes_client_to_server;
  bytes_out_total = fetch_add m.bytes_out_total telemetry.bytes_server_to_client;
  connection_duration_ms_total = fetch_add m.connection_duration_ms_total duration_ms;
}

pub record TunnelMetricsSnapshot : Type 0 where
  pub active_connections : ℕ
  pub handshake_success_total : ℕ
  pub handshake_failure_total : ℕ
  pub unauthorized_client_total : ℕ
  pub decrypt_failure_total : ℕ
  pub connections_total : ℕ
  pub bytes_in_total : ℕ
  pub bytes_out_total : ℕ
  pub connection_duration_ms_total : ℕ
  pub destination_connect_failure_total : ℕ

unfoldable pub snapshot : TunnelMetrics → TunnelMetricsSnapshot
snapshot m = record {
  active_connections = m.active_connections;
  handshake_success_total = m.handshake_success_total;
  handshake_failure_total = m.handshake_failure_total;
  unauthorized_client_total = m.unauthorized_client_total;
  decrypt_failure_total = m.decrypt_failure_total;
  connections_total = m.connections_total;
  bytes_in_total = m.bytes_in_total;
  bytes_out_total = m.bytes_out_total;
  connection_duration_ms_total = m.connection_duration_ms_total;
  destination_connect_failure_total = m.destination_connect_failure_total;
}

-- The line that the client logs for a closed connection.
pub record ClosedLine : Type 0 where
  pub connection_id : ℕ
  pub handshake_result : Text
  pub close_reason : Text
  pub error_stage : Text
  pub session_duration_ms : ℕ
  pub bytes_client_to_server : ℕ
  pub bytes_server_to_client : ℕ

-- `as_millis().min(u64::MAX as u128) as u64` of the time since the connection was opened.
unfoldable pub duration_ms : ConnectionTelemetry → ℕ → ℕ
duration_ms telemetry now =
    let elapsed = now - telemetry.opened_at in
    if ltb (u64_mod - 1) elapsed then u64_mod - 1 else elapsed

unfoldable pub finish_connection :
    TunnelMetrics → ConnectionTelemetry → Result Error (Unit {0}) → ℕ → TunnelMetrics × ClosedLine
unfolding connection_closed reason_of duration_ms
finish_connection m telemetry result now =
    let reason = reason_of result in
    let duration = duration_ms telemetry now in
    (
      connection_closed m telemetry reason duration,
      record {
        connection_id = telemetry.id;
        handshake_result =
            if telemetry.handshake_succeeded then codes "success" else codes "failure";
        close_reason = as_str reason;
        error_stage = stage_of result;
        session_duration_ms = duration;
        bytes_client_to_server = telemetry.bytes_client_to_server;
        bytes_server_to_client = telemetry.bytes_server_to_client;
      },
    )

-- The line that the server logs has no error stage.
pub record ServerClosedLine : Type 0 where
  pub connection_id : ℕ
  pub handshake_result : Text
  pub close_reason : Text
  pub session_duration_ms : ℕ
  pub bytes_client_to_server : ℕ
  pub bytes_server_to_client : ℕ

unfoldable pub server_finish_connection :
    TunnelMetrics
    → ConnectionTelemetry
    → Result Error (Unit {0})
    → ℕ
    → TunnelMetrics × ServerClosedLine
unfolding connection_closed reason_of duration_ms
server_finish_connection m telemetry result now =
    let reason = reason_of result in
    let duration = duration_ms telemetry now in
    (
      connection_closed m telemetry reason duration,
      record {
        connection_id = telemetry.id;
        handshake_result =
            if telemetry.handshake_succeeded then codes "success" else codes "failure";
        close_reason = as_str reason;
        session_duration_ms = duration;
        bytes_client_to_server = telemetry.bytes_client_to_server;
        bytes_server_to_client = telemetry.bytes_server_to_client;
      },
    )

-- Both programs count the end of a connection in the same way.
finish_connection-same :
    (m : TunnelMetrics) (telemetry : ConnectionTelemetry) (result : Result Error (Unit {0}))
    (now : ℕ)
    → (server_finish_connection m telemetry result now).0
      ≡ (finish_connection m telemetry result now).0
unfolding server_finish_connection finish_connection
finish_connection-same m telemetry result now = refl
