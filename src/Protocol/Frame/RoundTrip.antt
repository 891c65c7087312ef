-- ===== src/Protocol/Frame/RoundTrip.antt =====
-- Which byte strings are frames: the decoders accept the encodings and nothing else.
use secure_tunnel.Prelude.{
  ℕ, ◌+◌, ◌≤◌, ◌<◌, ◌≡◌, ◌↔◌, ◌⊎◌, inl, inr, Bool-cases, ltb→lt, ltb→le, [], ◌∷◌, ◌++◌, ◌≢◌,
  if◌then◌else◌, ltb, length, All, Bytes, IsByte, ok, err, arith,
}
use secure_tunnel.Protocol.Error.{
  handshake_message_too_large, truncated_frame, trailing_frame_bytes, max_handshake_message,
  max_ciphertext_record,
}
use secure_tunnel.Protocol.Frame.{
  u16_to_be_bytes, u32_to_be_bytes, encode_handshake_frame, decode_handshake_frame,
  decode_record_frame,
}

module _ {S : Type 0} where
  decode_handshake_sound :
      (frame message : Bytes)
      → All IsByte frame
      → decode_handshake_frame {S = S} frame ≡ ok message
      → (length message ≤ max_handshake_message)
        × (frame ≡ u16_to_be_bytes (length message) ++ message)
  unfolding decode_handshake_frame
  decode_handshake_sound [] message b h = ground arith
  decode_handshake_sound (x ∷ []) message b h = ground arith
  decode_handshake_sound (x ∷ y ∷ rest) message b h = ground arith

  pub decode_handshake_complete :
      (message : Bytes)
      → length message ≤ max_handshake_message
      → decode_handshake_frame {S = S} (u16_to_be_bytes (length message) ++ message) ≡ ok message
  unfolding decode_handshake_frame
  decode_handshake_complete message h = ground arith

  -- Over bytes, the handshake decoder accepts exactly the messages of at most 4096 bytes behind
  -- their own length, and returns the message.
  pub decode_handshake_frame_iff :
      (frame message : Bytes)
      → All IsByte frame
      → (decode_handshake_frame {S = S} frame ≡ ok message) ↔ (
          (length message ≤ max_handshake_message)
          × (frame ≡ u16_to_be_bytes (length message) ++ message))
  decode_handshake_frame_iff frame message b =
      (decode_handshake_sound frame message b, λ e. rw e.1 (decode_handshake_complete message e.0))

  pub encode_handshake_frame-ok :
      (message frame : Bytes)
      → encode_handshake_frame {S = S} message ≡ ok frame
      → (frame ≡ u16_to_be_bytes (length message) ++ message)
        × (length message ≤ max_handshake_message)
  unfolding encode_handshake_frame
  encode_handshake_frame-ok message frame h = (ground arith, ground arith)

  -- What the handshake encoder writes, the decoder reads back, and the encoder refuses exactly the
  -- messages of more than 4096 bytes.
  pub decode-encode_handshake_frame :
      (message : Bytes)
      → ((f : Bytes) × (encode_handshake_frame {S = S} message ≡ ok f)
          × (decode_handshake_frame {S = S} f ≡ ok message)
          × (length message ≤ max_handshake_message))
        ⊎ ((encode_handshake_frame {S = S} message
              ≡ err (handshake_message_too_large (length message)))
            × (max_handshake_message < length message))
  unfolding encode_handshake_frame
  decode-encode_handshake_frame message =
      elim (Bool-cases (ltb max_handshake_message (length message))) [
        | inl big ↦ inr (rw big, ltb→lt _ _ big)
        | inr small ↦ inl (
          u16_to_be_bytes (length message) ++ message,
          ground arith,
          decode_handshake_complete message (ground arith),
          ltb→le _ _ small,
        )
      ]

  decode_record_sound :
      (frame ciphertext : Bytes)
      → All IsByte frame
      → decode_record_frame {S = S} frame ≡ ok ciphertext
      → (length ciphertext ≤ max_ciphertext_record)
        × (frame ≡ u32_to_be_bytes (length ciphertext) ++ ciphertext)
  unfolding decode_record_frame
  decode_record_sound [] message b h = ground arith
  decode_record_sound (x ∷ []) message b h = ground arith
  decode_record_sound (x ∷ y ∷ []) message b h = ground arith
  decode_record_sound (x ∷ y ∷ z ∷ []) message b h = ground arith
  decode_record_sound (x ∷ y ∷ z ∷ w ∷ rest) message b h = ground arith

  pub decode_record_complete :
      (ciphertext : Bytes)
      → length ciphertext ≤ max_ciphertext_record
      → decode_record_frame {S = S} (u32_to_be_bytes (length ciphertext) ++ ciphertext)
        ≡ ok ciphertext
  unfolding decode_record_frame
  decode_record_complete ciphertext h = ground arith

  -- Over bytes, the record decoder accepts exactly the ciphertexts of at most 16400 bytes behind
  -- their own length, and returns the ciphertext.
  pub decode_record_frame_iff :
      (frame ciphertext : Bytes)
      → All IsByte frame
      → (decode_record_frame {S = S} frame ≡ ok ciphertext) ↔ (
          (length ciphertext ≤ max_ciphertext_record)
          × (frame ≡ u32_to_be_bytes (length ciphertext) ++ ciphertext))
  decode_record_frame_iff frame ciphertext b =
      (decode_record_sound frame ciphertext b, λ e. rw e.1 (decode_record_complete ciphertext e.0))

  -- A record that announces at most 16400 bytes and breaks off behind its header is reported as
  -- truncated, with the length that its header announces; one with bytes behind its end is
  -- refused too.
  decode_record_wrong_length :
      (n : ℕ) (rest : Bytes)
      → n ≤ max_ciphertext_record
      → length rest ≢ n
      → decode_record_frame {S = S} (u32_to_be_bytes n ++ rest) ≡ (
          if ltb (length rest) n
          then err (truncated_frame (4 + n) (4 + length rest))
          else err trailing_frame_bytes)
  unfolding decode_record_frame
  decode_record_wrong_length n rest small h = ground arith
