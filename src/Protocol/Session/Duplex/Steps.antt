-- ===== src/Protocol/Session/Duplex/Steps.antt =====
-- One record in flight: sealing and opening it with cells that hold the two transports.
use secure_tunnel.Prelude.{
  ◌+◌, ◌-◌, ◌≤◌, ◌≡◌, ◌++◌, List, [], ◌∷◌, map, length, Bytes, All, ok, arith,
}
use secure_tunnel.Protocol.Error.{max_plaintext_record}
use secure_tunnel.Protocol.Frame.RoundTrip.{decode_record_complete}
use secure_tunnel.Protocol.Noise.{Noise}
use secure_tunnel.Protocol.Session.{seal_record, open_record}
use secure_tunnel.Protocol.Session.Channel.{holding, frame_of}
use secure_tunnel.Protocol.Session.Duplex.{Record, Cipher}

module _ (N : Noise) (C : Cipher N) where
  open N use {TransportState}

  abbrev pub frames : List (Record N) → List Bytes
  frames = map (λ r. frame_of N r.1)

  abbrev pub plains : List (Record N) → List Bytes
  plains = map (λ r. r.0)

  abbrev pub Fits : Record N → Type 0
  Fits r = (length r.0 ≤ max_plaintext_record) × (length r.1 ≡ length r.0 + 16)

  pub All-append :
      {A : Type 0} (P : A → Type 0) (xs : List A) (y : A) → All P xs → P y → All P (xs ++ (y ∷ []))
  All-append P [] y u p = (p, tt)
  All-append P (x ∷ xs) y (q, u) p = (q, All-append P xs y u p)

  pub seals-ok :
      (a a' : TransportState) (plaintext ciphertext : Bytes)
      → length plaintext ≤ max_plaintext_record
      → length ciphertext ≡ length plaintext + 16
      → N.write_transport a plaintext (length plaintext + 16) ≡ ok (ciphertext, a')
      → seal_record N plaintext (holding N a) ≡ (ok (frame_of N ciphertext), holding N a')
  unfolding seal_record
  seals-ok a a' plaintext ciphertext small tagged written = ground (arith, written, tagged)

  pub opens-ok :
      (b b' : TransportState) (plaintext ciphertext : Bytes)
      → length plaintext ≤ max_plaintext_record
      → length ciphertext ≡ length plaintext + 16
      → N.read_transport b ciphertext (length plaintext) ≡ ok (plaintext, b')
      → open_record N (frame_of N ciphertext) (holding N b) ≡ (ok plaintext, holding N b')
  unfolding open_record
  opens-ok b b' plaintext ciphertext small tagged opened =
      let minus : length ciphertext - 16 ≡ length plaintext = omega (arith, tagged) in
      rw (decode_record_complete ciphertext (omega (arith, tagged)), minus, opened) (ground arith)
