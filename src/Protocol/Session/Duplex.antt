-- ===== src/Protocol/Session/Duplex.antt =====
-- The transport cipher of a session in both directions at once, as the two cipher cells of a
-- connection use it.
pub mod Steps
pub mod Carrying
use secure_tunnel.Prelude.{
  ℕ, suc, ◌+◌, ◌-◌, ◌≤◌, ◌≡◌, ◌++◌, List, [], ◌∷◌, Bool, true, false, length, Bytes, Result, ok,
  err,
}
use secure_tunnel.Protocol.Error.{TunnelError}
use secure_tunnel.Protocol.Noise.{Noise}
use secure_tunnel.Protocol.Session.{
  TransportSession, split, Heap, sender_encrypt_record, receiver_decrypt_record,
}

module _ (N : Noise) where
  open N use {SnowError, TransportState, write_transport, read_transport}

  -- A plaintext and its ciphertext.
  abbrev pub Record : Type 0
  Record = Bytes × Bytes

  -- What the program relies on of the transport cipher.  `Flight n a q b`: `a` has sealed the records
  -- of `q`, which `b` opens in this order, and can seal `n` more.  The directions do not disturb each
  -- other: sealing and opening keep what is in flight the other way.
  pub record Cipher : Type 1 where
    pub Flight : ℕ → TransportState → List Record → TransportState → Type 0
    pub seals :
        (n m : ℕ) (a b : TransportState) (q back : List Record) (plaintext : Bytes)
        → Flight (suc n) a q b
        → Flight m b back a
        → length plaintext + 16 ≤ 65535
        → (ciphertext : Bytes) × (a' : TransportState) × (length ciphertext ≡ length plaintext + 16)
          × (write_transport a plaintext (length plaintext + 16) ≡ ok (ciphertext, a'))
          × Flight n a' (q ++ ((plaintext, ciphertext) ∷ [])) b
          × Flight m b back a'
    pub opens :
        (n m : ℕ) (a b : TransportState) (plaintext ciphertext : Bytes) (q back : List Record)
        → Flight n a ((plaintext, ciphertext) ∷ q) b
        → Flight m b back a
        → (b' : TransportState) × (read_transport b ciphertext (length plaintext)
            ≡ ok (plaintext, b'))
          × Flight n a q b'
          × Flight m b' back a
