-- ===== src/Protocol/Frame.antt =====
-- crates/secure-tunnel/src/lib.rs: length-prefixed frames.
pub mod RoundTrip
use secure_tunnel.Prelude.{
  ℕ, ◌+◌, ◌*◌, ◌/◌, ◌%◌, [], ◌∷◌, ◌++◌, Bool, true, false, ltb, ◌==◌, if◌then◌else◌, length, drop,
  get_or, Bytes, Result, ok, err,
}
use secure_tunnel.Protocol.Error.{
  TunnelError, handshake_message_too_large, ciphertext_too_large, truncated_frame,
  trailing_frame_bytes, max_handshake_message, max_ciphertext_record,
}

-- `to_be_bytes` and `from_be_bytes`.
abbrev pub u16_to_be_bytes : ℕ → Bytes
u16_to_be_bytes n = (n / 256 % 256) ∷ (n % 256) ∷ []

abbrev pub u16_from_be_bytes : ℕ → ℕ → ℕ
u16_from_be_bytes a b = a * 256 + b

abbrev pub u32_to_be_bytes : ℕ → Bytes
u32_to_be_bytes n = (n / 16777216 % 256) ∷ (n / 65536 % 256) ∷ (n / 256 % 256) ∷ (n % 256) ∷ []

abbrev pub u32_from_be_bytes : ℕ → ℕ → ℕ → ℕ → ℕ
u32_from_be_bytes a b c d = a * 16777216 + b * 65536 + c * 256 + d

module _ {S : Type 0} where
  unfoldable pub encode_handshake_frame : Bytes → Result (TunnelError S) Bytes
  encode_handshake_frame message =
      if ltb max_handshake_message (length message)
      then err (handshake_message_too_large (length message))
      else if ltb 65535 (length message)
      then err (handshake_message_too_large (length message))
      else ok (u16_to_be_bytes (length message) ++ message)

  pub decode_frame : Bytes → ℕ → ℕ → Bool → Result (TunnelError S) Bytes
  decode_frame frame header_len maximum handshake =
      if ltb (length frame) header_len
      then err (truncated_frame header_len (length frame))
      else let claimed =
          if header_len == 2
          then u16_from_be_bytes (get_or frame 0 0) (get_or frame 1 0)
          else u32_from_be_bytes (get_or frame 0 0) (get_or frame 1 0) (get_or frame 2 0)
              (get_or frame 3 0) in
        if ltb maximum claimed
        then err (
            if handshake then handshake_message_too_large claimed else ciphertext_too_large claimed)
        else let expected = header_len + claimed in
          if ltb (length frame) expected
          then err (truncated_frame expected (length frame))
          else if ltb expected (length frame)
          then err trailing_frame_bytes
          else ok (drop header_len frame)

  unfoldable pub decode_handshake_frame : Bytes → Result (TunnelError S) Bytes
  unfolding decode_frame
  decode_handshake_frame frame = decode_frame frame 2 max_handshake_message true

  unfoldable pub decode_record_frame : Bytes → Result (TunnelError S) Bytes
  unfolding decode_frame
  decode_record_frame frame = decode_frame frame 4 max_ciphertext_record false
