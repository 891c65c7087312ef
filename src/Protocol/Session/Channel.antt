-- ===== src/Protocol/Session/Channel.antt =====
-- What the program relies on of the transport cipher of the Noise library: two transports that are
-- in step carry records from the one to the other.
use secure_tunnel.Prelude.{
  ℕ, suc, ◌+◌, ◌-◌, ◌≤◌, ◌≡◌, ◌++◌, some, false, length, Bytes, ok, arith, ==_refl,
}
use secure_tunnel.Protocol.Error.{max_plaintext_record}
use secure_tunnel.Protocol.Frame.{u32_to_be_bytes}
use secure_tunnel.Protocol.Frame.RoundTrip.{decode_record_complete}
use secure_tunnel.Protocol.Noise.{Noise}
use secure_tunnel.Protocol.Session.{
  TransportSender, TransportReceiver, sender_encrypt_record, receiver_decrypt_record, Cell, Heap,
  seal_record, open_record, at_cell,
}

module _ (N : Noise) where
  open N use {SnowError, TransportState, write_transport, read_transport}

  -- One record on its way: the ciphertext and the transports after it.
  pub record Carried (Linked : ℕ → TransportState → TransportState → Type 0) (n : ℕ)
      (a b : TransportState) (plaintext : Bytes) : Type 0 where
    pub ciphertext : Bytes
    pub sender : TransportState
    pub receiver : TransportState
    pub tagged : length ciphertext ≡ length plaintext + 16
    pub written : write_transport a plaintext (length plaintext + 16) ≡ ok (ciphertext, sender)
    pub read : read_transport b ciphertext (length plaintext) ≡ ok (plaintext, receiver)
    pub linked : Linked n sender receiver

  -- `Linked n a b`: `b` opens what `a` seals, and the nonces are not used up for `n` records.  A
  -- message carries a tag of 16 bytes and has 65535 bytes at most.
  pub record Channel : Type 1 where
    pub Linked : ℕ → TransportState → TransportState → Type 0
    pub carries :
        (n : ℕ) (a b : TransportState) (plaintext : Bytes)
        → Linked (suc n) a b
        → length plaintext + 16 ≤ 65535
        → Carried Linked n a b plaintext

  abbrev pub holding : TransportState → Cell N
  holding t = record { poisoned = false; slot = some t }

  -- Sealing and opening one record over two linked transports.
  pub record Sealed (C : Channel) (n : ℕ) (a b : TransportState) (plaintext : Bytes) : Type 0 where
    pub ciphertext : Bytes
    pub sender : TransportState
    pub receiver : TransportState
    pub size : length ciphertext ≡ length plaintext + 16
    pub seals :
        seal_record N plaintext (holding a)
        ≡ (ok (u32_to_be_bytes (length ciphertext) ++ ciphertext), holding sender)
    pub opens :
        open_record N (u32_to_be_bytes (length ciphertext) ++ ciphertext) (holding b)
        ≡ (ok plaintext, holding receiver)
    pub linked : C.Linked n sender receiver

  -- Over two transports that are in step for one more record at least, a record of at most 16384
  -- bytes that one side seals is opened to the same plaintext by the other, and both sides stay
  -- open and in step.
  pub seal-open :
      (C : Channel) (n : ℕ) (a b : TransportState) (plaintext : Bytes)
      → C.Linked (suc n) a b
      → length plaintext ≤ max_plaintext_record
      → Sealed C n a b plaintext
  unfolding seal_record open_record
  seal-open C n a b plaintext link small = sealed (C.carries n a b plaintext link (omega arith))
    where
      minus_tag :
          (c : Carried C.Linked n a b plaintext) → length c.ciphertext - 16 ≡ length plaintext
      minus_tag c = omega (arith, c.tagged)

      sealed : Carried C.Linked n a b plaintext → Sealed C n a b plaintext
      sealed c = record {
        ciphertext = c.ciphertext;
        sender = c.sender;
        receiver = c.receiver;
        size = c.tagged;
        seals = ground (arith, c.written, c.tagged);
        opens =
            rw (decode_record_complete c.ciphertext (omega (arith, c.tagged)), minus_tag c, c.read)
              (ground (arith));
        linked = c.linked;
      }

  abbrev pub frame_of : Bytes → Bytes
  frame_of ciphertext = u32_to_be_bytes (length ciphertext) ++ ciphertext

  -- The same through the shared cells of the two sides.
  pub encrypt-linked :
      (C : Channel) (s : TransportSender) (heap : Heap N) (n : ℕ) (a b : TransportState)
      (plaintext : Bytes)
      → heap s.state ≡ holding a
      → (r : Sealed C n a b plaintext)
      → ((sender_encrypt_record N s plaintext heap).0 ≡ ok (frame_of r.ciphertext))
        × ((sender_encrypt_record N s plaintext heap).1 s.state ≡ holding r.sender)
  unfolding sender_encrypt_record at_cell
  encrypt-linked C s heap n a b plaintext holds r =
      (rw (holds, r.seals), rw (==_refl s.state, holds, r.seals))

  pub decrypt-linked :
      (C : Channel) (s : TransportReceiver) (heap : Heap N) (n : ℕ) (a b : TransportState)
      (plaintext : Bytes)
      → heap s.state ≡ holding b
      → (r : Sealed C n a b plaintext)
      → ((receiver_decrypt_record N s (frame_of r.ciphertext) heap).0 ≡ ok plaintext)
        × ((receiver_decrypt_record N s (frame_of r.ciphertext) heap).1 s.state
            ≡ holding r.receiver)
  unfolding receiver_decrypt_record at_cell
  decrypt-linked C s heap n a b plaintext holds r =
      (rw (holds, r.opens), rw (==_refl s.state, holds, r.opens))
