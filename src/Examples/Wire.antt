-- ===== src/Examples/Wire.antt =====
-- Frames and prefaces at concrete bytes.
use secure_tunnel.Prelude.{
  ◌≤◌, ◌<◌, ◌≡◌, ◌↔◌, ◌⊎◌, inl, ap, [], ◌∷◌, ◌++◌, some, none, All, Bytes, IsByte, Text, codes, ok,
  err, arith,
}
use secure_tunnel.Protocol.Error.{
  unsupported_version, max_ciphertext_record, handshake_message_too_large, max_handshake_message,
}
use secure_tunnel.Protocol.Preface.{parse, parse_version}
use secure_tunnel.Protocol.Frame.{
  u16_to_be_bytes, u32_to_be_bytes, encode_handshake_frame, decode_handshake_frame,
  decode_record_frame,
}
use secure_tunnel.Protocol.Frame.RoundTrip.{
  decode_handshake_frame_iff, decode-encode_handshake_frame, decode_record_frame_iff,
}
use secure_tunnel.Tunnel.Io.{ended}
use secure_tunnel.Tunnel.Frames.{read_record_frame}
use secure_tunnel.Tunnel.Frames.Wire.{
  input, IsRecordOf, read_record_frame-encoded, read_record_frame_sound, read_record_frame-none_iff,
}

abbrev two_bytes : Bytes
two_bytes = 7 ∷ 200 ∷ []

abbrev zero_byte : Bytes
zero_byte = 0 ∷ []

abbrev one_record : Bytes
one_record = 0 ∷ 0 ∷ 0 ∷ 2 ∷ 7 ∷ 200 ∷ []

abbrev one_handshake : Bytes
one_handshake = 0 ∷ 2 ∷ 7 ∷ 200 ∷ []

one_record-bytes : All IsByte one_record
one_record-bytes = ground arith

one_handshake-bytes : All IsByte one_handshake
one_handshake-bytes = ground arith

parse_version_example :
    parse {S = Text} (b'C' ∷ b'D' ∷ b'X' ∷ b'T' ∷ 2 ∷ 0 ∷ []) ≡ err (unsupported_version 2 0)
parse_version_example = parse_version 2 0 (inl (omega arith))

decode_record_frame_iff_example :
    (decode_record_frame {S = Text} one_record ≡ ok two_bytes)
    ↔ ((2 ≤ max_ciphertext_record) × (one_record ≡ u32_to_be_bytes 2 ++ two_bytes))
decode_record_frame_iff_example = decode_record_frame_iff one_record two_bytes one_record-bytes

read_record_frame-none_iff_example :
    ((read_record_frame (input zero_byte (ended (codes "end")))).0 ≡ ok none) ↔ (zero_byte ≡ [])
read_record_frame-none_iff_example = read_record_frame-none_iff zero_byte (codes "end")

one_record-read :
    (read_record_frame (input one_record (ended (codes "end")))
      ≡ (ok (some one_record), input [] (ended (codes "end"))))
    × (decode_record_frame {S = Text} one_record ≡ ok two_bytes)
one_record-read =
    read_record_frame-encoded two_bytes [] (ended (codes "end")) Text (omega arith) (omega arith)

read_record_frame_sound_example :
    (r : IsRecordOf one_record one_record
      (read_record_frame (input one_record (ended (codes "end")))).1.bytes)
    × (decode_record_frame {S = Text} one_record ≡ ok r.0)
read_record_frame_sound_example =
    read_record_frame_sound one_record (ended (codes "end")) one_record Text one_record-bytes
      (ap (λ p. p.0) one_record-read.0)

decode_handshake_frame_iff_example :
    (decode_handshake_frame {S = Text} one_handshake ≡ ok two_bytes)
    ↔ ((2 ≤ max_handshake_message) × (one_handshake ≡ u16_to_be_bytes 2 ++ two_bytes))
decode_handshake_frame_iff_example =
    decode_handshake_frame_iff one_handshake two_bytes one_handshake-bytes

decode-encode_handshake_frame_example :
    ((f : Bytes) × (encode_handshake_frame {S = Text} two_bytes ≡ ok f)
      × (decode_handshake_frame {S = Text} f ≡ ok two_bytes)
      × (2 ≤ max_handshake_message))
    ⊎ ((encode_handshake_frame {S = Text} two_bytes ≡ err (handshake_message_too_large 2))
        × (max_handshake_message < 2))
decode-encode_handshake_frame_example = decode-encode_handshake_frame two_bytes
