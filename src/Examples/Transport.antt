-- ===== src/Examples/Transport.antt =====
-- The transport and the copying tasks over the toy cipher.
use secure_tunnel.Prelude.{
  ℕ, ◌≡◌, ◌≢◌, refl, List, [], ◌∷◌, false, All, Bytes, Text, codes, ok, err, arith,
}
use secure_tunnel.Protocol.Error.{closed_session, noise}
use secure_tunnel.Protocol.Frame.{decode_record_frame}
use secure_tunnel.Protocol.Frame.RoundTrip.{decode_record_complete}
use secure_tunnel.Protocol.Session.{
  TransportSession, split, Heap, open_record, at_cell, sender_encrypt_record,
  receiver_decrypt_record,
}
use secure_tunnel.Protocol.Session.Closing.{receiver_closes_sender}
use secure_tunnel.Protocol.Session.Channel.{Sealed, holding, seal-open}
use secure_tunnel.Tunnel.Io.{exhausted}
use secure_tunnel.Tunnel.Telemetry.{ConnectionTelemetry}
use secure_tunnel.Tunnel.Metrics.{new_telemetry}
use secure_tunnel.Tunnel.Copy.{copy_decrypt, add_client_to_server}
use secure_tunnel.Tunnel.Copy.Delivery.{IsChunk, task, drain}
use secure_tunnel.Tunnel.Copy.EndToEnd.{copy_decrypt-ne-exhausted}
use secure_tunnel.Examples.Toy.{toy, toy_channel}

abbrev greeting : Bytes
greeting = b'h' ∷ b'i' ∷ []

abbrev session : TransportSession
session = record { state = 3 }

abbrev at_nonce : ℕ → Heap toy
at_nonce n a = holding toy n

seal-open_example : Sealed toy toy_channel 4 0 0 greeting
seal-open_example = seal-open toy toy_channel 4 0 0 greeting refl (omega arith)

-- A frame of 16 zero bytes, which nonce 1 does not open.
abbrev forged : Bytes
forged = 0 ∷ 0 ∷ 0 ∷ 16 ∷ 0 ∷ 0 ∷ 0 ∷ 0 ∷ 0 ∷ 0 ∷ 0 ∷ 0 ∷ 0 ∷ 0 ∷ 0 ∷ 0 ∷ 0 ∷ 0 ∷ 0 ∷ 0 ∷ []

abbrev zeros : Bytes
zeros = 0 ∷ 0 ∷ 0 ∷ 0 ∷ 0 ∷ 0 ∷ 0 ∷ 0 ∷ 0 ∷ 0 ∷ 0 ∷ 0 ∷ 0 ∷ 0 ∷ 0 ∷ 0 ∷ []

forged-decodes : decode_record_frame {S = Text} forged ≡ ok zeros
forged-decodes = decode_record_complete zeros (omega arith)

forged-fails :
    (receiver_decrypt_record toy (split session).1 forged (at_nonce 1)).0
    ≡ err (noise (codes "decrypt error"))
unfolding receiver_decrypt_record split open_record at_cell decode_record_frame
forged-fails = refl

receiver_closes_sender_example :
    let after = (receiver_decrypt_record toy (split session).1 forged (at_nonce 1)).1 in
    ((sender_encrypt_record toy (split session).0 greeting after).0 ≡ err closed_session)
    × ((receiver_decrypt_record toy (split session).1 forged after).0 ≡ err closed_session)
receiver_closes_sender_example =
    receiver_closes_sender toy session (at_nonce 1) forged zeros greeting forged zeros refl
      forged-decodes forged-fails (omega arith) forged-decodes

abbrev telemetry : ConnectionTelemetry
telemetry = new_telemetry 1 0

abbrev chunks : List Bytes
chunks = greeting ∷ (b'!' ∷ []) ∷ []

chunks-sized : All IsChunk chunks
chunks-sized = ((omega arith, omega arith), ((omega arith, omega arith), tt))

copy_decrypt-ne-exhausted_example :
    (copy_decrypt toy add_client_to_server (split session).1 (
      drain toy toy_channel forged
        (codes "end")
        (task toy toy_channel (at_nonce 1) telemetry false []))).0
    ≢ err exhausted
copy_decrypt-ne-exhausted_example =
    copy_decrypt-ne-exhausted toy add_client_to_server (split session).1 (
      drain toy toy_channel forged (codes "end")
        (task toy toy_channel (at_nonce 1) telemetry false []))
