-- ===== src/Tunnel/Whole.antt =====
-- A whole connection through crates/secure-tunnel-client/src/main.rs and
-- crates/secure-tunnel-server/src/main.rs: what the handshake and the copying tasks start from.
pub mod Uplink
pub mod Downlink
pub mod Both
use secure_tunnel.Prelude.{
  ◌≤◌, ◌<◌, ◌^◌, ◌≡◌, refl, ◌++◌, List, [], ◌∷◌, true, false, All, Text, Bytes, length, concat,
  contains_key, ok, ==_refl, suc, arith,
}
use secure_tunnel.Protocol.Error.{max_server_static_identities}
use secure_tunnel.Protocol.Preface.{preface_bytes}
use secure_tunnel.Protocol.Noise.{Noise}
use secure_tunnel.Protocol.Session.{Address, Heap, split, new_session}
use secure_tunnel.Protocol.Session.Channel.{Channel, holding}
use secure_tunnel.Protocol.Agreement.{Agreement}
use secure_tunnel.Protocol.Agreement.Handshaking.{framed}
use secure_tunnel.Config.Client.{ClientConfig}
use secure_tunnel.Config.Server.{ServerConfig}
use secure_tunnel.Tunnel.Io.{Ending}
use secure_tunnel.Tunnel.Keys.{
  Host, read_private_key, decode_public_key, read_server_private_keys, decode_clients,
}
use secure_tunnel.Tunnel.Telemetry.{ConnectionTelemetry, u64_mod, fetch_add}
use secure_tunnel.Tunnel.Egress
use secure_tunnel.Tunnel.Ingress
use secure_tunnel.Tunnel.Copy.{add_client_to_server, add_server_to_client, copy_decrypt}
use secure_tunnel.Tunnel.Copy.Delivery.{
  IsChunk, count_all, task, shut_task, drain, busy_after, crossing,
}
use secure_tunnel.Tunnel.Copy.Directions.{
  count_all-client_to_server, count_all-server_to_client, client_uplink, client_downlink,
  server_outbound, server_inbound,
}
use secure_tunnel.Tunnel.Meeting.{smooth, patient, outer, remote, IsOther, handshake_completes}

-- What the two operators' files hold: the client's key and the server's public key at the client; at
-- the server up to eight identities, the pinned one among them, those before it with other public
-- keys, and the client's public key in the list.
pub record Enrolled (K H : Host) (public_of : Bytes → Bytes) (client server : Bytes)
    (client_config : ClientConfig) (server_config : ServerConfig) : Type 0 where
  pub before : List Bytes
  pub after : List Bytes
  pub clients : List Bytes
  pub own_key : read_private_key K client_config.private_key_file ≡ ok client
  pub pinned : decode_public_key K client_config.server_public_key ≡ ok (public_of server)
  pub identities : read_server_private_keys H server_config.identity ≡ ok (before ++ server ∷ after)
  pub allow_list : decode_clients H server_config.authorized_clients ≡ ok clients
  pub few : length (before ++ server ∷ after) ≤ max_server_static_identities
  pub listed : contains_key clients (public_of client) ≡ true
  pub others : All (IsOther public_of server) before

pub new_session-holding :
    (N : Noise) (t : N.TransportState) (a : Address) (heap : Heap N)
    → (new_session N t a heap).1 a ≡ holding N t
unfolding new_session
new_session-holding N t a heap = rw (==_refl a) refl

module _ (N : Noise) (K H : Host) (C : Channel N) (a : Agreement N C) (client server : Bytes)
    (sized : length client ≡ 32) (sized' : length server ≡ 32) where
  pub egress_starts :
      (client_config : ClientConfig) (server_config : ServerConfig)
      → Enrolled K H a.public_of client server client_config server_config
      → (elapsed : Text) (ending : Ending) (rest : Bytes)
      → let h = a.agrees client server sized sized' in
        Egress.complete_noise_handshake N client
            (a.public_of server)
            (patient elapsed)
            (remote (framed h.reply ++ rest) [] ending false)
          ≡ (ok h.client_transport, remote rest (preface_bytes ++ framed h.first) ending false)
        → Egress.run_noise N K client_config
            (patient elapsed)
            (remote (framed h.reply ++ rest) [] ending false)
          ≡ (ok h.client_transport, remote rest (preface_bytes ++ framed h.first) ending true)
  unfolding Egress.run_noise
  egress_starts client_config server_config e elapsed ending rest meets =
      rw (e.own_key, e.pinned, meets, Egress.run_noise) refl
