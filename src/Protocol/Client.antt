-- ===== src/Protocol/Client.antt =====
-- crates/secure-tunnel/src/lib.rs: the client's side of the handshake.
pub mod Order
pub mod Message
use secure_tunnel.Prelude.{
  Option, some, none, Bool, true, false, not, [], Bytes, Result, ok, err, map_err, ok_or,
}
use secure_tunnel.Prelude.Exec.{Exec, pure, lift, gets, modify, fail_if, ◌>>=◌, ◌>>◌}
use secure_tunnel.Protocol.Error.{
  TunnelError, handshake_order, closed_session, noise, max_handshake_message,
}
use secure_tunnel.Protocol.Frame.{encode_handshake_frame, decode_handshake_frame}
use secure_tunnel.Protocol.Noise.{Noise}
use secure_tunnel.Protocol.Builder.{initiator}

module _ (N : Noise) where
  open N use {
    SnowError, HandshakeState, TransportState, write_handshake, read_handshake, into_transport_mode,
  }

  pub record ClientHandshake : Type 0 where
    pub state : Option HandshakeState
    pub sent_first : Bool

  unfoldable pub new : Bytes → Bytes → Result (TunnelError SnowError) ClientHandshake
  new client_private pinned_server = elim (initiator N client_private pinned_server) [
    | ok state ↦ ok (record { state = some state; sent_first = false })
    | err e ↦ err e
  ]

  abbrev take_state : Exec ClientHandshake (TunnelError SnowError) HandshakeState
  take_state = do
    state ← gets (λ h. h.state)
    modify (λ h. record h { state = none })
    lift (ok_or state closed_session)

  unfoldable pub first_message : Exec ClientHandshake (TunnelError SnowError) Bytes
  first_message = do
    sent ← gets (λ h. h.sent_first)
    fail_if sent handshake_order
    state ← take_state
    (message, state') ← lift (map_err noise (write_handshake state [] max_handshake_message))
    modify (λ h. record h { sent_first = true })
    frame ← lift (encode_handshake_frame message)
    modify (λ h. record h { state = some state' })
    pure frame

  -- The transport is handed to `TransportSession::new` by the caller.
  unfoldable pub finish : Bytes → Exec ClientHandshake (TunnelError SnowError) TransportState
  finish server_frame = do
    sent ← gets (λ h. h.sent_first)
    fail_if (not sent) handshake_order
    message ← lift (decode_handshake_frame server_frame)
    state ← take_state
    (plaintext, state') ← lift (map_err noise (read_handshake state message max_handshake_message))
    lift (map_err noise (into_transport_mode state'))
