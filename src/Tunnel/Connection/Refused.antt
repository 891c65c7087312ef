-- ===== src/Tunnel/Connection/Refused.antt =====
-- How the server counts a client that is not listed.
use secure_tunnel.Prelude.{◌≡◌, refl, ℕ, [], ◌∷◌, false, codes, Bytes, err, map_err}
use secure_tunnel.Protocol.Error.{unauthorised_client, error_chain}
use secure_tunnel.Protocol.Noise.{Noise}
use secure_tunnel.Protocol.Server.{returned, ServerHandshake, receive_client}
use secure_tunnel.Tunnel.Io.{Error}
use secure_tunnel.Tunnel.Keys.{Host}
use secure_tunnel.Tunnel.Telemetry.{ConnectionTelemetry, fetch_add}
use secure_tunnel.Tunnel.Close.{reason_of, from_error, from_message}
use secure_tunnel.Tunnel.Metrics.{TunnelMetrics, server_finish_connection, connection_closed}
use secure_tunnel.Tunnel.Ingress.{of_failure}

-- The error that the handler returns for such a client.
abbrev unlisted : Error
unlisted = codes "Noise handshake failed" ∷ codes "client static key is not authorised" ∷ []

unlisted-counted :
    (m : TunnelMetrics) (telemetry : ConnectionTelemetry) (now : ℕ)
    → telemetry.handshake_succeeded ≡ false
    → let m' = (server_finish_connection m telemetry (err unlisted) now).0 in
      (m'.unauthorized_client_total ≡ m.unauthorized_client_total)
      × (m'.handshake_failure_total ≡ fetch_add m.handshake_failure_total 1)
unfolding server_finish_connection connection_closed reason_of from_error from_message
unlisted-counted m telemetry now unmarked = rw unmarked (refl, refl)

-- When the handshake of a connection refuses a client because it is not listed, the error that the
-- handler returns for this makes the server count one handshake more that failed, modulo 2^64, and none
-- more among the unauthorised clients.
pub receive_client_unlisted :
    (N : Noise) (H : Host) (frame : Bytes) (h : ServerHandshake N) (m : TunnelMetrics)
    (telemetry : ConnectionTelemetry) (now : ℕ)
    → (receive_client N frame h).0 ≡ err (returned unauthorised_client)
    → telemetry.handshake_succeeded ≡ false
    → (e : Error) × (map_err (of_failure N H) (receive_client N frame h).0 ≡ err (returned e))
      × (let m' = (server_finish_connection m telemetry (err e) now).0 in
          (m'.unauthorized_client_total ≡ m.unauthorized_client_total)
          × (m'.handshake_failure_total ≡ fetch_add m.handshake_failure_total 1))
unfolding error_chain
receive_client_unlisted N H frame h m telemetry now refused unmarked =
    (unlisted, rw refused refl, unlisted-counted m telemetry now unmarked)
