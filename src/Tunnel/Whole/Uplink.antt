-- ===== src/Tunnel/Whole/Uplink.antt =====
-- A connection from the application at the client to the destination at the server: the handshake, the
-- `uplink` task of crates/secure-tunnel-client/src/main.rs and the `inbound` task of
-- crates/secure-tunnel-server/src/main.rs.
use secure_tunnel.Prelude.{
  ◌<◌, ◌^◌, ◌≡◌, ◌++◌, List, [], true, false, All, Text, Bytes, length, concat, ok, suc, arith,
}
use secure_tunnel.Protocol.Preface.{preface_bytes}
use secure_tunnel.Protocol.Noise.{Noise}
use secure_tunnel.Protocol.Session.{Address, Heap, split, new_session}
use secure_tunnel.Protocol.Session.Channel.{Channel}
use secure_tunnel.Protocol.Agreement.{Agreement}
use secure_tunnel.Protocol.Agreement.Handshaking.{framed}
use secure_tunnel.Config.Client.{ClientConfig}
use secure_tunnel.Config.Server.{ServerConfig}
use secure_tunnel.Tunnel.Io.{ended}
use secure_tunnel.Tunnel.Keys.{Host}
use secure_tunnel.Tunnel.Telemetry.{ConnectionTelemetry, u64_mod, fetch_add}
use secure_tunnel.Tunnel.Egress
use secure_tunnel.Tunnel.Ingress
use secure_tunnel.Tunnel.Copy.{add_client_to_server, copy_decrypt}
use secure_tunnel.Tunnel.Copy.Delivery.{
  IsChunk, count_all, task, shut_task, drain, busy_after, crossing,
}
use secure_tunnel.Tunnel.Copy.Directions.{count_all-client_to_server, client_uplink, server_inbound}
use secure_tunnel.Tunnel.Meeting.{smooth, patient, outer, remote, handshake_completes}
use secure_tunnel.Tunnel.Whole.{Enrolled, new_session-holding, egress_starts}

module _ (N : Noise) (K H : Host) (C : Channel N) (a : Agreement N C) (client server : Bytes)
    (sized : length client ≡ 32) (sized' : length server ≡ 32) where
  -- When the keys are enrolled at both sides, and nothing fails or is late: whatever the pieces of 1
  -- to 16384 bytes, fewer than 2^64, in which the application's bytes are read, the client, given the
  -- server's reply, writes the preface, one frame and a wire of records, and then shuts its side
  -- down; the server, given what the client has written, replies with the frame that the client was
  -- given, reads on from the wire and has written to the destination exactly the application's bytes,
  -- in order, before it shuts that side down; and the counters of both sides for this direction, if
  -- they are below 2^64, have grown by the number of those bytes, modulo 2^64.
  pub application_reaches_destination :
      (client_config : ClientConfig) (server_config : ServerConfig)
      → Enrolled K H a.public_of client server client_config server_config
      → (reads : List Bytes) → length reads < 2 ^ 64
      → All IsChunk reads
      → (elapsed elapsed' text : Text) (rest : Bytes) (address address' : Address)
        (heap heap' : Heap N) (tel tel' : ConnectionTelemetry)
      → tel.bytes_client_to_server < u64_mod
      → tel'.bytes_client_to_server < u64_mod
      → let h = a.agrees client server sized sized' in
        let (session, cells) = new_session N h.client_transport address heap in
        let (session', cells') = new_session N h.server_transport address' heap' in
        let hello = preface_bytes ++ framed h.first in
        (wire : Bytes) × (final : Heap N) × (final' : Heap N) × (Egress.run_noise N K client_config
            (patient elapsed)
            (remote (framed h.reply ++ rest) [] (ended text) false)
          ≡ (ok h.client_transport, remote rest hello (ended text) true))
        × (client_uplink N (split session).0 reads (ended text) (task N C cells tel false hello) ≡ (
          ok tt,
          shut_task N C (
              task N C final
                (count_all add_client_to_server reads tel)
                (busy_after N C reads false)
                (hello ++ wire)),
        ))
        × (Ingress.run_noise N H server_config
              (smooth elapsed')
              (outer (hello ++ wire) [] (ended text) false false)
            ≡ (ok h.server_transport, outer wire (framed h.reply) (ended text) true true))
        × (server_inbound N (split session').1 (drain N C wire text (task N C cells' tel' false []))
            ≡ (
              ok tt,
              drain N C [] text (
                  shut_task N C (
                    task N C final'
                      (count_all add_client_to_server reads tel')
                      (busy_after N C reads false)
                      (concat reads))),
            ))
        × ((count_all add_client_to_server reads tel).bytes_client_to_server
            ≡ fetch_add tel.bytes_client_to_server (length (concat reads)))
        × ((count_all add_client_to_server reads tel').bytes_client_to_server
            ≡ fetch_add tel'.bytes_client_to_server (length (concat reads)))
  unfolding client_uplink server_inbound copy_decrypt split new_session
  application_reaches_destination client_config server_config e reads few sized_reads elapsed
        elapsed' text rest address address' heap heap' tel tel' small small' =
      let h = a.agrees client server sized sized' in
      let (session, cells) = new_session N h.client_transport address heap in
      let (session', cells') = new_session N h.server_transport address' heap' in
      let hello = preface_bytes ++ framed h.first in
      let c =
        crossing N C (split session).0 (split session').1 add_client_to_server add_client_to_server
          cells cells' tel tel' false false hello [] reads h.client_transport h.server_transport
          (a.forward client server sized sized' (length reads) few)
          (new_session-holding N h.client_transport address heap)
          (new_session-holding N h.server_transport address' heap') sized_reads in
      let (meets, greets, up, down) =
        handshake_completes N H C a client server sized sized' server_config e.before e.after
          e.clients e.identities e.allow_list e.few e.listed e.others (length reads) few elapsed
          elapsed' rest c.wire (ended text) (ended text) in
      (
        c.wire,
        c.final_a,
        c.final_b,
        egress_starts N K H C a client server sized sized' client_config server_config e elapsed
            (ended text) rest meets,
        c.encrypted text,
        greets,
        c.decrypted text (suc (length c.wire)) (omega arith),
        count_all-client_to_server reads tel small,
        count_all-client_to_server reads tel' small',
      )
