-- ===== src/Tunnel/Connection/Admitted.antt =====
-- Which connections the server counts as handshakes that succeeded, and how it counts a client that is
-- not listed.
use secure_tunnel.Prelude.{
  ℕ, ◌*◌, ◌≡◌, refl, subst, ◌∙◌, ◌⊎◌, inl, inr, List, false, Result, ok, err, arith,
}
use secure_tunnel.Protocol.Noise.{Noise}
use secure_tunnel.Protocol.Server.{Failure, returned, panicked, ServerReply}
use secure_tunnel.Config.Server.{ServerConfig}
use secure_tunnel.Tunnel.Io.{Error, Input, Output}
use secure_tunnel.Tunnel.Keys.{Host}
use secure_tunnel.Tunnel.Metrics.{TunnelMetrics, server_finish_connection, connection_closed}
use secure_tunnel.Tunnel.Relay.Tasks.{Move, server_role}
use secure_tunnel.Tunnel.Ingress.{Runtime, Outer, Arrival, handle_outer}
use secure_tunnel.Tunnel.Ingress.Contact.{IsAdmitted}
use secure_tunnel.Tunnel.Ingress.Arriving.{stream_of, handle_outer-IsAdmitted}
use secure_tunnel.Tunnel.Connection.{
  Surroundings, Connection, relays, closed, crashed, relay, shaken, accepted, server_relay,
  server_connection, server_counts,
}
use secure_tunnel.Tunnel.Connection.Marks.{
  ClosesWith, relay_through-mark, add_client_to_server-LeavesMark, add_server_to_client-LeavesMark,
}

module _ (N : Noise) where
  unmarked-counts :
      (m : TunnelMetrics) (now : ℕ) (k : Connection N)
      → ClosesWith N false k
      → (server_counts N m now k).handshake_success_total ≡ m.handshake_success_total
  unfolding server_counts server_finish_connection connection_closed
  unmarked-counts m now (relays x) h = refl
  unmarked-counts m now (closed telemetry result) h = ground arith
  unmarked-counts m now crashed h = absurd h

  server_relay-counts :
      (m : TunnelMetrics) (now idle_seconds : ℕ) (w : Surroundings N) (ms : List Move)
      (r : Result (Failure Error) N.TransportState) (o : Outer)
      → o.handshake_succeeded ≡ false
      → (server_counts N m now (server_relay N w idle_seconds ms (r, o))).handshake_success_total
        ≡ m.handshake_success_total
  unfolding relay server_counts
  server_relay-counts m now idle_seconds w ms (ok t) o unmarked = unmarked-counts m now _ (
      subst (λ b. ClosesWith N b (server_relay N w idle_seconds ms (ok t, o))) unmarked
        (relay_through-mark N server_role add_server_to_client-LeavesMark
          add_client_to_server-LeavesMark _ (idle_seconds * 1000) ms _))
  server_relay-counts m now idle_seconds w ms (err (returned e)) o unmarked =
      unmarked-counts m now (closed (shaken N o.handshake_succeeded w.telemetry) (err e)) unmarked
  server_relay-counts m now idle_seconds w ms (err panicked) o unmarked = refl

  -- Whatever a connection of the server meets, in its handshake and in its relay: it is counted among the
  -- handshakes that succeeded only if the stream of the handshake began with the version 1 preface and a
  -- handshake frame in which one of the server's identities authenticated a client of the configuration.
  pub server_connection-IsAdmitted :
      (H : Host) (config : ServerConfig) (x : Arrival) (r : Runtime) (w : Surroundings N)
      (incoming : Input) (outgoing : Output) (ms : List Move) (m : TunnelMetrics) (now : ℕ)
      → w.telemetry.handshake_succeeded ≡ false
      → let k = server_connection N H config x r w incoming outgoing ms in
        ((server_counts N m now k).handshake_success_total ≡ m.handshake_success_total)
        ⊎ ((reply : ServerReply N) × IsAdmitted N H config (stream_of x.tls incoming) reply)
  unfolding server_connection
  server_connection-IsAdmitted H config x r w incoming outgoing ms m now fresh =
      let o = accepted N incoming outgoing w.telemetry in
      let (result, o') = handle_outer N H config x r o in
      elim (handle_outer-IsAdmitted N H config x r o) [
        | inl (same, untouched) ↦
            inl
              (server_relay-counts m now config.timeouts.idle_seconds w ms result o' (same ∙ fresh))
        | inr admitted ↦ inr admitted
      ]
