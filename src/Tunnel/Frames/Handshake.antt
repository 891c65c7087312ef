-- ===== src/Tunnel/Frames/Handshake.antt =====
-- The handshake reader on a framed message.
use secure_tunnel.Prelude.{
  ℕ, ◌/◌, ◌%◌, ◌≤◌, ◌≡◌, refl, [], ◌∷◌, ◌++◌, false, ltb, length, Bytes, ok, arith,
}
use secure_tunnel.Protocol.Error.{max_handshake_message}
use secure_tunnel.Protocol.Frame.{u16_to_be_bytes, u16_from_be_bytes}
use secure_tunnel.Tunnel.Io.{Ending}
use secure_tunnel.Tunnel.Frames.{read_length_framed, read_handshake_frame}
use secure_tunnel.Tunnel.Frames.Wire.{input, read_exact-append}

u16-bytes : (n : ℕ) → n ≤ max_handshake_message → u16_from_be_bytes (n / 256 % 256) (n % 256) ≡ n
u16-bytes n h = omega arith

-- A header that announces the length of the message.
read_framed :
    (a b : ℕ) (message rest : Bytes) (ending : Ending)
    → u16_from_be_bytes a b ≡ length message
    → ltb max_handshake_message (length message) ≡ false
    → read_handshake_frame (input (a ∷ b ∷ (message ++ rest)) ending)
      ≡ (ok (a ∷ b ∷ message), input rest ending)
unfolding read_handshake_frame read_length_framed
read_framed a b message rest ending e small =
    rw (read_exact-append 2 (a ∷ b ∷ []) (message ++ rest) ending refl)
      (rw (e, small) (rw (read_exact-append (length message) message rest ending refl) refl))

-- From a stream that starts with a framed message of at most 4096 bytes the reader takes that frame
-- and nothing of what follows it.
pub read_handshake_frame-encoded :
    (message rest : Bytes) (ending : Ending)
    → length message ≤ max_handshake_message
    → read_handshake_frame (input (u16_to_be_bytes (length message) ++ (message ++ rest)) ending)
      ≡ (ok (u16_to_be_bytes (length message) ++ message), input rest ending)
read_handshake_frame-encoded message rest ending small =
    read_framed _ _ message rest ending (u16-bytes (length message) small) (ground arith)
