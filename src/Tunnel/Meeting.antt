-- ===== src/Tunnel/Meeting.antt =====
-- The two programs' handshakes against each other: `complete_noise_handshake` of
-- crates/secure-tunnel-client/src/main.rs and `run_noise` of crates/secure-tunnel-server/src/main.rs.
use secure_tunnel.Prelude.{
  ℕ, ◌≤◌, ◌<◌, ◌^◌, ◌≡◌, ◌≢◌, refl, ◌++◌, append-nil, List, [], ◌∷◌, Bool, true, false, All, Text,
  Bytes, length, contains_key, ok,
}
use secure_tunnel.Protocol.Error.{max_server_static_identities}
use secure_tunnel.Protocol.Preface.{preface_bytes, encode}
use secure_tunnel.Protocol.Noise.{Noise}
use secure_tunnel.Protocol.Server.Entry.{new-identities, accept_preface-v1}
use secure_tunnel.Protocol.Session.Channel.{Channel}
use secure_tunnel.Protocol.Agreement.{Agreed, IsForeign, Agreement}
use secure_tunnel.Protocol.Agreement.Handshaking.{
  framed, new-agreed, first_message-agreed, replying, receive_client-agreed, message-agreed,
  into_session-agreed, finish-agreed,
}
use secure_tunnel.Config.Server.{ServerConfig}
use secure_tunnel.Tunnel.Io.{Ending, Output, write_all, flush}
use secure_tunnel.Tunnel.Frames.Wire.{input, read_exact-append}
use secure_tunnel.Tunnel.Frames.Handshake.{read_handshake_frame-encoded}
use secure_tunnel.Tunnel.Keys.{Host, read_server_private_keys, decode_clients}
use secure_tunnel.Tunnel.Ingress.{
  Runtime, Outer, in_time, timed, sending, connect, await_client, answer_client, run_noise,
}
use secure_tunnel.Tunnel.Egress.{Patience, Remote, complete_noise_handshake}

-- A runtime in which nothing fails and nothing is late.
abbrev pub smooth : Text → Runtime
smooth elapsed = record {
  elapsed = elapsed;
  preface_wait = in_time;
  frame_wait = in_time;
  destination_wait = in_time;
  connected = ok tt;
  nodelay = ok tt;
  keepalive = ok tt;
}

abbrev pub patient : Text → Patience
patient elapsed = record { in_time = true; elapsed = elapsed }

abbrev pub output : Bytes → Output
output written = record { written = written; shut = false; faults = [] }

-- A connection at the ingress, and one at the egress.
abbrev pub outer : Bytes → Bytes → Ending → Bool → Bool → Outer
outer incoming written ending succeeded contacted = record {
  incoming = input incoming ending;
  outgoing = output written;
  handshake_succeeded = succeeded;
  contacted = contacted;
}

abbrev pub remote : Bytes → Bytes → Ending → Bool → Remote
remote incoming written ending succeeded = record {
  incoming = input incoming ending;
  outgoing = output written;
  handshake_succeeded = succeeded;
}

module _ (N : Noise) (H : Host) (C : Channel N) (public_of : Bytes → Bytes) (client server : Bytes)
    (h : Agreed N C public_of client server) where
  pub egress_meets :
      (elapsed : Text) (rest : Bytes) (ending : Ending) (flag : Bool)
      → complete_noise_handshake N client
          (public_of server)
          (patient elapsed)
          (remote (framed h.reply ++ rest) [] ending flag)
        ≡ (ok h.client_transport, remote rest (preface_bytes ++ framed h.first) ending flag)
  unfolding complete_noise_handshake write_all flush encode
  egress_meets elapsed rest ending flag =
      rw (new-agreed N C public_of client server h, complete_noise_handshake)
        (rw (first_message-agreed N C public_of client server h) (
          rw (read_handshake_frame-encoded h.reply rest ending h.reply_small)
            (rw (finish-agreed N C public_of client server h, append-nil) refl)))

  answer_client_meets :
      (elapsed : Text) (rest : Bytes) (ending : Ending)
      → answer_client N H
          (smooth elapsed)
          (replying N C public_of client server h)
          (outer rest [] ending false false)
        ≡ (ok h.server_transport, outer rest (framed h.reply) ending true true)
  unfolding answer_client write_all flush sending connect
  answer_client_meets elapsed rest ending =
      rw (message-agreed N C public_of client server h, answer_client)
        (rw (into_session-agreed N C public_of client server h, append-nil) refl)

  module _ (config : ServerConfig) (before after clients : List Bytes)
      (identities_read : read_server_private_keys H config.identity ≡ ok (before ++ server ∷ after))
      (clients_decoded : decode_clients H config.authorized_clients ≡ ok clients)
      (few : length (before ++ server ∷ after) ≤ max_server_static_identities)
      (sized : length (public_of client) ≡ 32)
      (listed : contains_key clients (public_of client) ≡ true)
      (strangers : All (IsForeign N C public_of h.first) before) where
    await_client_meets :
        (elapsed : Text) (rest : Bytes) (ending : Ending)
        → await_client N H config
            (smooth elapsed)
            (outer (preface_bytes ++ (framed h.first ++ rest)) [] ending false false)
          ≡ (ok (replying N C public_of client server h), outer rest [] ending false false)
    unfolding await_client timed
    await_client_meets elapsed rest ending =
        rw (identities_read, clients_decoded, await_client)
          (rw (read_exact-append 6 preface_bytes (framed h.first ++ rest) ending refl) (
            rw (new-identities N before after clients server few) (
              rw (accept_preface-v1 N (before ++ server ∷ after) clients) (
                rw (read_handshake_frame-encoded h.first rest ending h.first_small) (
                  rw
                    (receive_client-agreed N C public_of client server h clients before after sized
                      listed strangers)
                    refl)))))

    pub ingress_meets :
        (elapsed : Text) (rest : Bytes) (ending : Ending)
        → run_noise N H config
            (smooth elapsed)
            (outer (preface_bytes ++ (framed h.first ++ rest)) [] ending false false)
          ≡ (ok h.server_transport, outer rest (framed h.reply) ending true true)
    unfolding run_noise
    ingress_meets elapsed rest ending =
        rw (await_client_meets elapsed rest ending, run_noise)
          (answer_client_meets elapsed rest ending)

-- Private keys of 32 bytes whose public key is not that of `server`.
abbrev pub IsOther : (Bytes → Bytes) → Bytes → Bytes → Type 0
IsOther public_of server other = (length other ≡ 32) × (public_of other ≢ public_of server)

module _ (N : Noise) (H : Host) (C : Channel N) (a : Agreement N C) (client server : Bytes)
    (sized : length client ≡ 32) (sized' : length server ≡ 32) where
  strangers :
      (others : List Bytes)
      → All (IsOther a.public_of server) others
      → All (IsForeign N C a.public_of (a.agrees client server sized sized').first) others
  strangers [] others = tt
  strangers (other ∷ others) ((long, different), rest) =
      (a.foreign client server other sized sized' long different, strangers others rest)

  -- The egress and the ingress of a tunnel, each fed what the other has written, with no failure and
  -- no delay, when the client pins the public key of one of the at most eight identities of the
  -- server, the identities before it have other public keys, and the client's public key is in the
  -- server's list: both handshakes end well, after the preface and one frame from the client and one
  -- frame from the server, the bytes that follow stay unread, the ingress has begun its connection
  -- to the destination, and the transports of the two sides are in step in both directions.
  pub handshake_completes :
      (config : ServerConfig) (before after clients : List Bytes)
      → read_server_private_keys H config.identity ≡ ok (before ++ server ∷ after)
      → decode_clients H config.authorized_clients ≡ ok clients
      → length (before ++ server ∷ after) ≤ max_server_static_identities
      → contains_key clients (a.public_of client) ≡ true
      → All (IsOther a.public_of server) before
      → (n : ℕ) → n < 2 ^ 64
      → (elapsed elapsed' : Text) (rest rest' : Bytes) (ending ending' : Ending)
      → let h = a.agrees client server sized sized' in
        (complete_noise_handshake N client
            (a.public_of server)
            (patient elapsed)
            (remote (framed h.reply ++ rest) [] ending false)
          ≡ (ok h.client_transport, remote rest (preface_bytes ++ framed h.first) ending false))
        × (run_noise N H config
              (smooth elapsed')
              (outer (preface_bytes ++ (framed h.first ++ rest')) [] ending' false false)
            ≡ (ok h.server_transport, outer rest' (framed h.reply) ending' true true))
        × C.Linked n h.client_transport h.server_transport
        × C.Linked n h.server_transport h.client_transport
  handshake_completes config before after clients read decoded few listed others n small elapsed
        elapsed' rest rest' ending ending' =
      let h = a.agrees client server sized sized' in
      (
        egress_meets N H C a.public_of client server h elapsed rest ending false,
        ingress_meets N H C a.public_of client server h config before after clients read decoded few
            (a.public_size client sized) listed (strangers before others) elapsed' rest' ending',
        a.forward client server sized sized' n small,
        a.backward client server sized sized' n small,
      )
