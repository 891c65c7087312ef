-- ===== src/Protocol/Client/Message.antt =====
-- The first message of a client handshake is a framed message.
use secure_tunnel.Prelude.{
  ◌≡◌, ◌≤◌, ◌++◌, inl, inr, [], Option-cases, length, Bytes, ok, Result-cases, arith,
}
use secure_tunnel.Protocol.Error.{max_handshake_message}
use secure_tunnel.Protocol.Frame.{u16_to_be_bytes}
use secure_tunnel.Protocol.Frame.RoundTrip.{encode_handshake_frame-ok}
use secure_tunnel.Protocol.Noise.{Noise}
use secure_tunnel.Protocol.Client.{ClientHandshake, first_message}

module _ (N : Noise) where
  open N use {SnowError, HandshakeState, write_handshake}

  pub first_message-ok :
      (h : ClientHandshake N) (frame : Bytes)
      → (first_message N h).0 ≡ ok frame
      → (message : Bytes) × (frame ≡ u16_to_be_bytes (length message) ++ message)
        × (length message ≤ max_handshake_message)
  unfolding first_message
  first_message-ok h frame e = elim (Option-cases h.state) [
    | inl closed ↦ absurd (ground arith)
    | inr (s, held) ↦ elim (Result-cases (write_handshake s [] max_handshake_message)) [
      | inr (x, failed) ↦ absurd (ground arith)
      | inl ((message, s'), written) ↦
          let (framed, small) =
            encode_handshake_frame-ok {S = SnowError} message frame (ground arith) in
          (message, framed, small)
    ]
  ]
