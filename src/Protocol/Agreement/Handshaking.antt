-- ===== src/Protocol/Agreement/Handshaking.antt =====
-- A whole handshake of the two sides of crates/secure-tunnel/src/lib.rs.
use secure_tunnel.Prelude.{
  ◌≡◌, refl, ◌++◌, List, [], ◌∷◌, Option, some, none, Bool, true, false, All, Bytes, length,
  contains_key, ok, arith,
}
use secure_tunnel.Protocol.Frame.{u16_to_be_bytes, encode_handshake_frame}
use secure_tunnel.Protocol.Frame.RoundTrip.{decode_handshake_complete}
use secure_tunnel.Protocol.Noise.{Noise}
use secure_tunnel.Protocol.Builder.{to_array32}
use secure_tunnel.Protocol.Client.{ClientHandshake, new, first_message, finish}
use secure_tunnel.Protocol.Server.{
  ServerHandshake, ServerReply, accepts, fails, attempt, remote_key, try_identities, receive_client,
  message, into_session,
}
use secure_tunnel.Protocol.Session.Channel.{Channel}
use secure_tunnel.Protocol.Agreement.{Agreed, IsForeign}

abbrev pub framed : Bytes → Bytes
framed message = u16_to_be_bytes (length message) ++ message

module _ (N : Noise) (C : Channel N) (public_of : Bytes → Bytes) (client server : Bytes)
    (h : Agreed N C public_of client server) where
  open N use {SnowError}

  abbrev pub started : ClientHandshake N
  started = record { state = some h.client_start; sent_first = false }

  abbrev pub replying : ServerReply N
  replying = record { state = some h.server_read; sent_reply = false }

  pub new-agreed : new N client (public_of server) ≡ ok started
  unfolding new
  new-agreed = rw (h.client_built, new) refl

  pub first_message-agreed :
      first_message N started
      ≡ (ok (framed h.first), record { state = some h.client_sent; sent_first = true })
  unfolding first_message encode_handshake_frame
  first_message-agreed = ground (arith, h.first_written, h.first_small)

  remote_key-agreed :
      length (public_of client) ≡ 32 → remote_key N h.server_read ≡ ok (public_of client)
  unfolding remote_key to_array32
  remote_key-agreed sized = ground (arith, h.client_known)

  attempt-agreed :
      (allow_list : List Bytes)
      → length (public_of client) ≡ 32
      → contains_key allow_list (public_of client) ≡ true
      → attempt N allow_list h.first server ≡ accepts h.server_read
  unfolding attempt
  attempt-agreed allow_list sized listed =
      rw (h.server_built, h.first_read, remote_key-agreed sized, listed, attempt) refl

  attempt-foreign :
      (allow_list : List Bytes) (other : Bytes) (f : IsForeign N C public_of h.first other)
      → attempt N allow_list h.first other ≡ fails f.error
  unfolding attempt
  attempt-foreign allow_list other f = rw (f.built, f.refused, attempt) refl

  -- The identities before the client's are tried in vain.
  try_identities-agreed :
      (allow_list before after : List Bytes) (u : Bool) (last : Option SnowError)
      → length (public_of client) ≡ 32
      → contains_key allow_list (public_of client) ≡ true
      → All (IsForeign N C public_of h.first) before
      → try_identities N allow_list h.first (before ++ server ∷ after) u last ≡ ok replying
  unfolding try_identities
  try_identities-agreed allow_list [] after u last sized listed f =
      rw (attempt-agreed allow_list sized listed, try_identities) refl
  try_identities-agreed allow_list (other ∷ before) after u last sized listed (f, fs) =
      rw (attempt-foreign allow_list other f, try_identities)
        (try_identities-agreed allow_list before after u (some f.error) sized listed fs)

  -- A server that is made with these identities and clients, and has accepted the preface.
  abbrev pub greeted : List Bytes → List Bytes → ServerHandshake N
  greeted identities clients = record {
    static_identities = some identities;
    allow_list = clients;
    preface_accepted = true;
  }

  pub receive_client-agreed :
      (allow_list before after : List Bytes)
      → length (public_of client) ≡ 32
      → contains_key allow_list (public_of client) ≡ true
      → All (IsForeign N C public_of h.first) before
      → (receive_client N (framed h.first) (greeted (before ++ server ∷ after) allow_list)).0
        ≡ ok replying
  unfolding receive_client
  receive_client-agreed allow_list before after sized listed f =
      rw (decode_handshake_complete {S = SnowError} h.first h.first_small)
        (rw (try_identities-agreed allow_list before after false none sized listed f) refl)

  pub message-agreed :
      message N replying
      ≡ (ok (framed h.reply), record { state = some h.server_end; sent_reply = true })
  unfolding message encode_handshake_frame
  message-agreed = ground (arith, h.reply_written, h.reply_small)

  pub into_session-agreed :
      (into_session N (record { state = some h.server_end; sent_reply = true })).0
      ≡ ok h.server_transport
  unfolding into_session
  into_session-agreed = rw (h.server_done, into_session) refl

  pub finish-agreed :
      (finish N (framed h.reply) (record { state = some h.client_sent; sent_first = true })).0
      ≡ ok h.client_transport
  unfolding finish
  finish-agreed =
      rw
        (
          decode_handshake_complete {S = SnowError} h.reply h.reply_small,
          h.reply_read,
          h.client_done,
          finish,
        )
        refl
