-- ===== src/Protocol/Server.antt =====
-- crates/secure-tunnel/src/lib.rs: the server's side of the handshake.
pub mod Admission
pub mod Order
pub mod Entry
use secure_tunnel.Prelude.{
  ℕ, List, [], ◌∷◌, Option, some, none, Bool, true, false, not, ltb, if◌then◌else◌, length,
  is_empty, contains_key, Bytes, Result, ok, err, map_err, ok_or,
}
use secure_tunnel.Prelude.Exec.{Exec, pure, lift, gets, modify, fail_if, ◌>>=◌, ◌>>◌}
use secure_tunnel.Protocol.Error.{
  TunnelError, handshake_order, closed_session, unauthorised_client, missing_server_static_identity,
  too_many_server_static_identities, noise, max_handshake_message, max_server_static_identities,
}
use secure_tunnel.Protocol.Preface.{Preface, parse}
use secure_tunnel.Protocol.Frame.{encode_handshake_frame, decode_handshake_frame}
use secure_tunnel.Protocol.Noise.{Noise}
use secure_tunnel.Protocol.Builder.{responder, to_array32}

-- An error that is returned, or the panic of a failed `expect`.
pub data Failure (E : Type 0) : Type 0 where
  returned : E → Failure E
  panicked : Failure E

module _ (N : Noise) where
  open N use {
    SnowError, HandshakeState, TransportState, write_handshake, read_handshake, get_remote_static,
    into_transport_mode,
  }

  abbrev Error : Type 0
  Error = TunnelError SnowError

  -- The set of allowed keys is read by membership only, so a list stands for it.
  pub record ServerHandshake : Type 0 where
    pub static_identities : Option (List Bytes)
    pub allow_list : List Bytes
    pub preface_accepted : Bool

  pub record ServerReply : Type 0 where
    pub state : Option HandshakeState
    pub sent_reply : Bool

  unfoldable pub new_with_static_identities :
      List Bytes → List Bytes → Result (TunnelError SnowError) ServerHandshake
  new_with_static_identities server_privates authorised_clients =
      if is_empty server_privates
      then err missing_server_static_identity
      else if ltb max_server_static_identities (length server_privates)
      then err (too_many_server_static_identities (length server_privates))
      else ok (record {
        static_identities = some server_privates;
        allow_list = authorised_clients;
        preface_accepted = false;
      })

  pub new : Bytes → List Bytes → Result (TunnelError SnowError) ServerHandshake
  unfolding new_with_static_identities
  new server_private = new_with_static_identities (server_private ∷ [])

  pub accept_preface : Bytes → Exec ServerHandshake (TunnelError SnowError) (Unit {0})
  accept_preface preface = do
    accepted ← gets (λ h. h.preface_accepted)
    fail_if accepted handshake_order
    version ← lift (parse preface)
    modify (λ h. record h { preface_accepted = true })

  -- After the loop: the error that it reports, where `expect` wants an error of the last identity.
  abbrev pub rejected : Bool → Option SnowError → Failure (TunnelError SnowError)
  rejected true last_error = returned unauthorised_client
  rejected false none = panicked
  rejected false (some e) = returned (noise e)

  -- What one identity makes of the message: a reply, the next identity with the two flags of the
  -- loop, or an early return.
  pub data Attempt : Type 0 where
    accepts : HandshakeState → Attempt
    disallows : Attempt
    fails : SnowError → Attempt
    stops : TunnelError SnowError → Attempt

  -- The key that the handshake revealed, as 32 bytes.
  unfoldable pub remote_key : HandshakeState → Result (TunnelError SnowError) Bytes
  unfolding to_array32
  remote_key state = elim (get_remote_static state) [
    | none ↦ err unauthorised_client
    | some remote ↦ to_array32 unauthorised_client remote
  ]

  unfoldable pub attempt : List Bytes → Bytes → Bytes → Attempt
  attempt allow_list message server_private = elim (responder N server_private) [
    | err e ↦ stops e
    | ok state ↦ elim (read_handshake state message max_handshake_message) [
      | err e ↦ fails e
      | ok (plaintext, state') ↦ elim (remote_key state') [
        | err e ↦ stops e
        | ok remote ↦ if contains_key allow_list remote then accepts state' else disallows
      ]
    ]
  ]

  -- `for server_private in static_identities`
  unfoldable pub try_identities :
      List Bytes
      → Bytes
      → List Bytes
      → Bool
      → Option SnowError
      → Result (Failure (TunnelError SnowError)) ServerReply
  try_identities allow_list message [] unauthorised last_error =
      err (rejected unauthorised last_error)
  try_identities allow_list message (key ∷ keys) unauthorised last_error =
      elim (attempt allow_list message key) [
        | accepts state ↦ ok (record { state = some state; sent_reply = false })
        | disallows ↦ try_identities allow_list message keys true last_error
        | fails e ↦ try_identities allow_list message keys unauthorised (some e)
        | stops e ↦ err (returned e)
      ]

  unfoldable pub receive_client :
      Bytes → Exec ServerHandshake (Failure (TunnelError SnowError)) ServerReply
  receive_client client_frame = do
    accepted ← gets (λ h. h.preface_accepted)
    fail_if (not accepted) (returned handshake_order)
    message ← lift (map_err returned (decode_handshake_frame client_frame))
    identities ← gets (λ h. h.static_identities)
    modify (λ h. record h { static_identities = none })
    keys ← lift (ok_or identities (returned closed_session))
    allow_list ← gets (λ h. h.allow_list)
    lift (try_identities allow_list message keys false none)

  abbrev take_reply_state : Exec ServerReply (TunnelError SnowError) HandshakeState
  take_reply_state = do
    state ← gets (λ r. r.state)
    modify (λ r. record r { state = none })
    lift (ok_or state closed_session)

  unfoldable pub message : Exec ServerReply (TunnelError SnowError) Bytes
  message = do
    sent ← gets (λ r. r.sent_reply)
    fail_if sent handshake_order
    state ← take_reply_state
    (bytes, state') ← lift (map_err noise (write_handshake state [] max_handshake_message))
    modify (λ r. record r { sent_reply = true })
    frame ← lift (encode_handshake_frame bytes)
    modify (λ r. record r { state = some state' })
    pure frame

  unfoldable pub into_session : Exec ServerReply (TunnelError SnowError) TransportState
  into_session = do
    sent ← gets (λ r. r.sent_reply)
    fail_if (not sent) handshake_order
    state ← take_reply_state
    lift (map_err noise (into_transport_mode state))
