-- ===== src/Tunnel/Whole/Both.antt =====
-- A connection in both directions at once: the two handshakes, and then the two relays of
-- crates/secure-tunnel-client/src/main.rs and crates/secure-tunnel-server/src/main.rs.
use secure_tunnel.Prelude.{
  ℕ, ◌<◌, ◌^◌, ◌≡◌, ◌++◌, List, [], true, false, All, Text, Bytes, length, ok, append-nil,
}
use secure_tunnel.Protocol.Preface.{preface_bytes}
use secure_tunnel.Protocol.Noise.{Noise}
use secure_tunnel.Protocol.Session.{Address, Heap, new_session}
use secure_tunnel.Protocol.Session.Duplex.{Cipher}
use secure_tunnel.Protocol.Session.Duplex.Carrying.{channel_of}
use secure_tunnel.Protocol.Agreement.{Agreement}
use secure_tunnel.Protocol.Agreement.Handshaking.{framed}
use secure_tunnel.Config.Client.{ClientConfig}
use secure_tunnel.Config.Server.{ServerConfig}
use secure_tunnel.Tunnel.Io.{silent, Fault}
use secure_tunnel.Tunnel.Keys.{Host}
use secure_tunnel.Tunnel.Telemetry.{ConnectionTelemetry}
use secure_tunnel.Tunnel.Egress
use secure_tunnel.Tunnel.Ingress
use secure_tunnel.Tunnel.Pair.{Step, steps}
use secure_tunnel.Tunnel.Pair.Counting.{client_reads, server_reads}
use secure_tunnel.Tunnel.Pair.Runs.{IsPrefix, Begun, IsSmallStep, begin}
use secure_tunnel.Tunnel.Pair.Delivered.{steps-IsPrefix}
use secure_tunnel.Tunnel.Meeting.{smooth, patient, outer, remote, handshake_completes}
use secure_tunnel.Tunnel.Whole.{Enrolled, new_session-holding, egress_starts}

-- What is free when a relay starts: the address of the session's cell and the other cells, the counters,
-- what the writers will meet, the idle time and the time.
pub record Setting (N : Noise) : Type 0 where
  pub address : Address
  pub heap : Heap N
  pub telemetry : ConnectionTelemetry
  pub wire_faults : List Fault
  pub sink_faults : List Fault
  pub idle : ℕ
  pub now : ℕ

module _ (N : Noise) where
  -- A relay after a handshake for which `greeting` was sent.
  abbrev pub begun : Setting N → N.TransportState → Bytes → Begun N
  begun x t greeting = record {
    heap = (new_session N t x.address x.heap).1;
    telemetry = x.telemetry;
    greeting = greeting;
    wire_faults = x.wire_faults;
    sink_faults = x.sink_faults;
    idle = x.idle;
    now = x.now;
  }

module _ (N : Noise) (K H : Host) (D : Cipher N) (a : Agreement N (channel_of N D))
    (client server : Bytes) (sized : length client ≡ 32) (sized' : length server ≡ 32) where
  -- When the keys are enrolled at both sides, and nothing fails or is late before the relays: the two
  -- handshakes end well, each fed what the other has written.  Then, whatever happens to the relays of
  -- the two sides and to the network between them, in whatever order, with fewer than 2^64 reads of
  -- plaintext on each side, of at most 16384 bytes each, and a network that carries bytes in order, ends
  -- a stream only after its writer stopped and all of it came, and may break at any time: what has been
  -- written to the destination is a prefix of what was read from the application, and what has been
  -- written to the application is a prefix of what was read from the destination.
  pub connection_in_order :
      (client_config : ClientConfig) (server_config : ServerConfig)
      → Enrolled K H a.public_of client server client_config server_config
      → (elapsed elapsed' : Text) (x y : Setting N) (ts : List Step) → client_reads ts < 2 ^ 64
      → server_reads ts < 2 ^ 64
      → All (IsSmallStep N D) ts
      → let h = a.agrees client server sized sized' in
        let hello = preface_bytes ++ framed h.first in
        let session = (new_session N h.client_transport x.address x.heap).0 in
        let session' = (new_session N h.server_transport y.address y.heap).0 in
        let p = steps N session session' x.idle y.idle ts (
          begin N D
            (begun N x h.client_transport hello)
            (begun N y h.server_transport (framed h.reply))) in
        (Egress.run_noise N K client_config
            (patient elapsed)
            (remote (framed h.reply) [] silent false)
          ≡ (ok h.client_transport, remote [] hello silent true))
        × (Ingress.run_noise N H server_config (smooth elapsed') (outer hello [] silent false false)
            ≡ (ok h.server_transport, outer [] (framed h.reply) silent true true))
        × IsPrefix p.server.sink.written p.client.source
        × IsPrefix p.client.sink.written p.server.source
  unfolding new_session
  connection_in_order client_config server_config e elapsed elapsed' x y ts few few' small =
      let h = a.agrees client server sized sized' in
      let (meets, greets, (m, forth, u), v) =
        handshake_completes N H (channel_of N D) a client server sized sized' server_config e.before
          e.after e.clients e.identities e.allow_list e.few e.listed e.others (client_reads ts) few
          elapsed elapsed' [] [] silent silent in
      let (m', back, u') = a.backward client server sized sized' (server_reads ts) few' in
      let (up, down) =
        steps-IsPrefix N D _ _ (begun N x h.client_transport (preface_bytes ++ framed h.first))
          (begun N y h.server_transport (framed h.reply)) ts h.client_transport h.server_transport
          forth back (new_session-holding N h.client_transport x.address x.heap)
          (new_session-holding N h.server_transport y.address y.heap) small in
      (
        rw (append-nil h.reply) at (
            egress_starts N K H (channel_of N D) a client server sized sized' client_config
              server_config e elapsed silent [] meets),
        rw (append-nil h.first) at greets,
        up,
        down,
      )
