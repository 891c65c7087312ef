-- ===== src/Tunnel/Whole/Downlink.antt =====
-- A connection from the destination at the server to the application at the client: the handshake, the
-- `outbound` task of crates/secure-tunnel-server/src/main.rs and the `downlink` task of
-- crates/secure-tunnel-client/src/main.rs.
use secure_tunnel.Prelude.{
  ◌<◌, ◌^◌, ◌≡◌, ◌++◌, List, [], true, false, All, Text, Bytes, length, concat, ok, suc, arith,
}
use secure_tunnel.Protocol.Preface.{preface_bytes}
use secure_tunnel.Protocol.Noise.{Noise}
use secure_tunnel.Protocol.Session.{Address, Heap, split, new_session}
use secure_tunnel.Protocol.Session.Channel.{Channel}
use secure_tunnel.Protocol.Agreement.{Agreement}
use secure_tunnel.Protocol.Agreement.Handshaking.{framed}
use secure_tunnel.Config.Client.{ClientConfig}
use secure_tunnel.Config.Server.{ServerConfig}
use secure_tunnel.Tunnel.Io.{ended}
use secure_tunnel.Tunnel.Keys.{Host}
use secure_tunnel.Tunnel.Telemetry.{ConnectionTelemetry, u64_mod, fetch_add}
use secure_tunnel.Tunnel.Egress
use secure_tunnel.Tunnel.Ingress
use secure_tunnel.Tunnel.Copy.{add_server_to_client, copy_decrypt}
use secure_tunnel.Tunnel.Copy.Delivery.{
  IsChunk, count_all, task, shut_task, drain, busy_after, crossing,
}
use secure_tunnel.Tunnel.Copy.Directions.{
  count_all-server_to_client, client_downlink, server_outbound,
}
use secure_tunnel.Tunnel.Meeting.{smooth, patient, outer, remote, handshake_completes}
use secure_tunnel.Tunnel.Whole.{Enrolled, new_session-holding, egress_starts}

module _ (N : Noise) (K H : Host) (C : Channel N) (a : Agreement N C) (client server : Bytes)
    (sized : length client ≡ 32) (sized' : length server ≡ 32) where
  -- When the keys are enrolled at both sides, and nothing fails or is late: whatever the pieces of 1 to
  -- 16384 bytes, fewer than 2^64, in which the destination's bytes are read, the server, given the client's preface and frame,
  -- replies with one frame and writes a wire of records, and then shuts its side down; the client,
  -- given what the server has written, completes its handshake, reads on from the wire and has written
  -- to the application exactly the destination's bytes, in order, before it shuts that side down; and
  -- the counters of both sides for this direction, if they are below 2^64, have grown by the number of
  -- those bytes, modulo 2^64.
  pub destination_reaches_application :
      (client_config : ClientConfig) (server_config : ServerConfig)
      → Enrolled K H a.public_of client server client_config server_config
      → (reads : List Bytes) → length reads < 2 ^ 64
      → All IsChunk reads
      → (elapsed elapsed' text : Text) (rest : Bytes) (address address' : Address)
        (heap heap' : Heap N) (tel tel' : ConnectionTelemetry)
      → tel.bytes_server_to_client < u64_mod
      → tel'.bytes_server_to_client < u64_mod
      → let h = a.agrees client server sized sized' in
        let (session, cells) = new_session N h.client_transport address heap in
        let (session', cells') = new_session N h.server_transport address' heap' in
        let hello = preface_bytes ++ framed h.first in
        (wire : Bytes) × (final : Heap N) × (final' : Heap N) × (Ingress.run_noise N H server_config
            (smooth elapsed')
            (outer (hello ++ rest) [] (ended text) false false)
          ≡ (ok h.server_transport, outer rest (framed h.reply) (ended text) true true))
        × (server_outbound N
              (split session').0
              reads
              (ended text)
              (task N C cells' tel' false (framed h.reply))
            ≡ (
              ok tt,
              shut_task N C (
                  task N C final'
                    (count_all add_server_to_client reads tel')
                    (busy_after N C reads false)
                    (framed h.reply ++ wire)),
            ))
        × (Egress.run_noise N K client_config
              (patient elapsed)
              (remote (framed h.reply ++ wire) [] (ended text) false)
            ≡ (ok h.client_transport, remote wire hello (ended text) true))
        × (client_downlink N (split session).1 (drain N C wire text (task N C cells tel false []))
            ≡ (
              ok tt,
              drain N C [] text (
                  shut_task N C (
                    task N C final
                      (count_all add_server_to_client reads tel)
                      (busy_after N C reads false)
                      (concat reads))),
            ))
        × ((count_all add_server_to_client reads tel).bytes_server_to_client
            ≡ fetch_add tel.bytes_server_to_client (length (concat reads)))
        × ((count_all add_server_to_client reads tel').bytes_server_to_client
            ≡ fetch_add tel'.bytes_server_to_client (length (concat reads)))
  unfolding client_downlink server_outbound copy_decrypt split new_session
  destination_reaches_application client_config server_config e reads few sized_reads elapsed
        elapsed' text rest address address' heap heap' tel tel' small small' =
      let h = a.agrees client server sized sized' in
      let (session, cells) = new_session N h.client_transport address heap in
      let (session', cells') = new_session N h.server_transport address' heap' in
      let c =
        crossing N C (split session').0 (split session).1 add_server_to_client add_server_to_client
          cells' cells tel' tel false false (framed h.reply) [] reads h.server_transport
          h.client_transport (a.backward client server sized sized' (length reads) few)
          (new_session-holding N h.server_transport address' heap')
          (new_session-holding N h.client_transport address heap) sized_reads in
      let (meets, greets, up, down) =
        handshake_completes N H C a client server sized sized' server_config e.before e.after
          e.clients e.identities e.allow_list e.few e.listed e.others (length reads) few elapsed
          elapsed' c.wire rest (ended text) (ended text) in
      (
        c.wire,
        c.final_b,
        c.final_a,
        greets,
        c.encrypted text,
        egress_starts N K H C a client server sized sized' client_config server_config e elapsed
            (ended text) c.wire meets,
        c.decrypted text (suc (length c.wire)) (omega arith),
        count_all-server_to_client reads tel small,
        count_all-server_to_client reads tel' small',
      )
