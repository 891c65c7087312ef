-- ===== src/Tunnel/Connection.antt =====
-- A connection from its session task to its last count: `handle_local` of
-- crates/secure-tunnel-client/src/main.rs and `handle_outer` of
-- crates/secure-tunnel-server/src/main.rs with the relays that they end in, and the call of
-- `finish_connection` behind them.
pub mod Marks
pub mod Counting
pub mod Admitted
pub mod Refused
use secure_tunnel.Prelude.{ℕ, ◌*◌, List, [], ◌∷◌, Option, Bool, true, false, Text, Result, ok, err}
use secure_tunnel.Protocol.Noise.{Noise}
use secure_tunnel.Protocol.Server.{Failure, returned, panicked}
use secure_tunnel.Protocol.Session.{Address, Heap, TransportSession, new_session}
use secure_tunnel.Config.Client.{ClientConfig}
use secure_tunnel.Config.Server.{ServerConfig}
use secure_tunnel.Tunnel.Io.{Error, Input, Output}
use secure_tunnel.Tunnel.Keys.{Host}
use secure_tunnel.Tunnel.Telemetry.{ConnectionTelemetry}
use secure_tunnel.Tunnel.Metrics.{TunnelMetrics, finish_connection, server_finish_connection}
use secure_tunnel.Tunnel.Relay.{RelayEnd}
use secure_tunnel.Tunnel.Relay.Tasks.{
  Role, client_role, server_role, Move, Watch, loops, over, Running, relaying, move,
}
use secure_tunnel.Tunnel.Egress.{Patience, Remote}
use secure_tunnel.Tunnel.Egress.Departing.{Departure, handle_local}
use secure_tunnel.Tunnel.Ingress.{Runtime, Outer, Arrival, handle_outer}

-- What a relay starts with besides its streams: the address of the session's cell and the other cells,
-- the counters, the writer of the plaintext, and the time.
pub record Surroundings (N : Noise) : Type 0 where
  pub address : Address
  pub heap : Heap N
  pub telemetry : ConnectionTelemetry
  pub sink : Output
  pub now : ℕ

module _ (N : Noise) where
  open N use {TransportState}

  -- How far a connection has come: its relay runs, its handler has returned, or it has panicked.
  pub data Connection : Type 0 where
    relays : Running N → Connection
    closed : ConnectionTelemetry → Result Error (Unit {0}) → Connection
    crashed : Connection

  abbrev pub go_on : Watch → Running N → Connection → Connection
  go_on (loops s) x rest = rest
  go_on (over end) x rest = closed x.telemetry end.result

  -- The relay returns as soon as its loop is over.
  pub relay_through : Role → TransportSession → ℕ → List Move → Running N → Connection
  relay_through role s idle [] x = relays x
  relay_through role s idle (m ∷ ms) x =
      let x' = move N role s idle m x in
      let rest = relay_through role s idle ms x' in go_on x'.watch x' rest

  -- `relay(…, session.split(), idle_seconds, …)`, with times in milliseconds.
  pub relay :
      Role
      → Surroundings N
      → ℕ
      → TransportState
      → ConnectionTelemetry
      → Input
      → Output
      → List Move
      → Connection
  unfolding relay_through
  relay role w idle_seconds t telemetry wire_in wire_out ms =
      let (session, heap) = new_session N t w.address w.heap in
      let idle = idle_seconds * 1000 in
      relay_through role session idle ms
        (relaying N heap telemetry wire_in wire_out w.sink idle w.now)

  abbrev pub shaken : Bool → ConnectionTelemetry → ConnectionTelemetry
  shaken succeeded telemetry = record telemetry { handshake_succeeded = succeeded }

  abbrev pub client_relay :
      Surroundings N → ℕ → List Move → Result Error TransportState × Remote → Connection
  client_relay w idle_seconds ms (ok t, o) =
      relay client_role w idle_seconds t (shaken o.handshake_succeeded w.telemetry) o.incoming
        o.outgoing ms
  client_relay w idle_seconds ms (err e, o) =
      closed (shaken o.handshake_succeeded w.telemetry) (err e)

  -- The stream and the flag with which `handle_local` begins.
  abbrev pub unconnected : Input → Output → ConnectionTelemetry → Remote
  unconnected incoming outgoing telemetry = record {
    incoming = incoming;
    outgoing = outgoing;
    handshake_succeeded = telemetry.handshake_succeeded;
  }

  pub client_connection :
      Host
      → (Text → Bool)
      → ClientConfig
      → Departure
      → Patience
      → Surroundings N
      → Input
      → Output
      → List Move
      → Connection
  unfolding relay
  client_connection H is_dns_name config d patience w incoming outgoing ms =
      client_relay w config.timeouts.idle_seconds ms
        (handle_local N is_dns_name H config d patience (unconnected incoming outgoing w.telemetry))

  abbrev pub server_relay :
      Surroundings N → ℕ → List Move → Result (Failure Error) TransportState × Outer → Connection
  server_relay w idle_seconds ms (ok t, o) =
      relay server_role w idle_seconds t (shaken o.handshake_succeeded w.telemetry) o.incoming
        o.outgoing ms
  server_relay w idle_seconds ms (err (returned e), o) =
      closed (shaken o.handshake_succeeded w.telemetry) (err e)
  server_relay w idle_seconds ms (err panicked, o) = crashed

  abbrev pub accepted : Input → Output → ConnectionTelemetry → Outer
  accepted incoming outgoing telemetry = record {
    incoming = incoming;
    outgoing = outgoing;
    handshake_succeeded = telemetry.handshake_succeeded;
    contacted = false;
  }

  pub server_connection :
      Host
      → ServerConfig
      → Arrival
      → Runtime
      → Surroundings N
      → Input
      → Output
      → List Move
      → Connection
  unfolding relay
  server_connection H config x r w incoming outgoing ms =
      server_relay w config.timeouts.idle_seconds ms
        (handle_outer N H config x r (accepted incoming outgoing w.telemetry))

  -- What the process counts when the handler has returned; a panic is not counted.
  pub client_counts : TunnelMetrics → ℕ → Connection → TunnelMetrics
  client_counts m now (relays x) = m
  client_counts m now (closed telemetry result) = (finish_connection m telemetry result now).0
  client_counts m now crashed = m

  pub server_counts : TunnelMetrics → ℕ → Connection → TunnelMetrics
  server_counts m now (relays x) = m
  server_counts m now (closed telemetry result) =
      (server_finish_connection m telemetry result now).0
  server_counts m now crashed = m
