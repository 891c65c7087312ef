-- ===== src/Tunnel/Metrics/Active.antt =====
-- `active_connections` of `TunnelMetrics` over one connection.
use secure_tunnel.Prelude.{ℕ, ◌+◌, ◌-◌, ◌%◌, ◌≡◌, refl, Result}
use secure_tunnel.Tunnel.Io.{Error}
use secure_tunnel.Tunnel.Telemetry.{ConnectionTelemetry, u64_mod, fetch_add}
use secure_tunnel.Tunnel.Metrics.{
  TunnelMetrics, connection_opened, connection_closed, finish_connection, fetch_sub_one,
}

pub opened-active :
    (m : TunnelMetrics) (now : ℕ)
    → (connection_opened m now).1.active_connections ≡ (m.active_connections + 1) % u64_mod
unfolding connection_opened fetch_add
opened-active m now = refl

pub finished-active :
    (m : TunnelMetrics) (t : ConnectionTelemetry) (r : Result Error (Unit {0})) (now : ℕ)
    → (finish_connection m t r now).0.active_connections
      ≡ (m.active_connections + u64_mod - 1) % u64_mod
unfolding finish_connection connection_closed fetch_sub_one
finished-active m t r now = refl
