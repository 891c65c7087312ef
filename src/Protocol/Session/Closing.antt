-- ===== src/Protocol/Session/Closing.antt =====
-- The transport fails closed: what an error leaves behind, for one call and for all later ones.
use secure_tunnel.Prelude.{
  ◌+◌, ◌≤◌, ◌≡◌, ◌++◌, none, some, Option-cases, Result-cases, inl, inr, ◌∙◌, false, length, Bytes,
  ok, err, arith, ==_refl,
}
use secure_tunnel.Protocol.Error.{
  TunnelError, closed_session, max_plaintext_record, max_ciphertext_record,
}
use secure_tunnel.Protocol.Frame.{u32_to_be_bytes, decode_record_frame}
use secure_tunnel.Protocol.Noise.{Noise}
use secure_tunnel.Protocol.Session.{
  TransportSession, split, Address, Cell, Heap, Locked, seal_record, open_record, at_cell,
  sender_encrypt_record, receiver_decrypt_record,
}

module _ (N : Noise) where
  open N use {SnowError, TransportState, write_transport, read_transport}

  -- Sealing a record of legal size on an open cell either succeeds or leaves the cell closed.
  pub seal_record_fail_closed :
      (c : Cell N) (plaintext : Bytes) {e : TunnelError SnowError}
      → length plaintext ≤ max_plaintext_record
      → c.poisoned ≡ false
      → (seal_record N plaintext c).0 ≡ err e
      → (seal_record N plaintext c).1.slot ≡ none
  unfolding seal_record
  seal_record_fail_closed c plaintext small clean h = ground arith

  pub open_record_fail_closed :
      (c : Cell N) (frame : Bytes) {ciphertext : Bytes} {e : TunnelError SnowError}
      → decode_record_frame {S = SnowError} frame ≡ ok ciphertext
      → c.poisoned ≡ false
      → (open_record N frame c).0 ≡ err e
      → (open_record N frame c).1.slot ≡ none
  unfolding open_record
  open_record_fail_closed c frame decoded clean h = ground arith

  -- What a successful sealing did: it wrote one ciphertext and framed it.
  pub seal_record-inv :
      (c : Cell N) (plaintext frame : Bytes)
      → (seal_record N plaintext c).0 ≡ ok frame
      → (t : TransportState) × (ciphertext : Bytes) × (t' : TransportState) × (c.slot ≡ some t)
        × (write_transport t plaintext (length plaintext + 16) ≡ ok (ciphertext, t'))
        × (length plaintext ≤ max_plaintext_record)
        × (length ciphertext ≤ max_ciphertext_record)
        × (frame ≡ u32_to_be_bytes (length ciphertext) ++ ciphertext)
        × (seal_record N plaintext c).1.slot ≡ some t'
  unfolding seal_record
  seal_record-inv c plaintext frame h = elim (Option-cases c.slot) [
    | inl empty ↦ absurd (ground arith)
    | inr (t, full) ↦ elim (Result-cases (write_transport t plaintext (length plaintext + 16))) [
      | inl ((ciphertext, t'), written) ↦ (
        t,
        ciphertext,
        t',
        full,
        ground arith,
        ground arith,
        ground arith,
        ground arith,
        ground arith,
      )
      | inr (e, failed) ↦ absurd (ground arith)
    ]
  ]

  at_cell_self :
      {A : Type 0} (a : Address) (m : Locked N A) (heap : Heap N)
      → (at_cell N a m heap).1 a ≡ (m (heap a)).1
  unfolding at_cell
  at_cell_self a m heap = rw (==_refl a)

  open_record-poisoned :
      (c : Cell N) (frame : Bytes) → (open_record N frame c).1.poisoned ≡ c.poisoned
  unfolding open_record
  open_record-poisoned c frame = ground arith

  seal_record-closed :
      (c : Cell N) (plaintext : Bytes)
      → c.slot ≡ none
      → c.poisoned ≡ false
      → length plaintext ≤ max_plaintext_record
      → (seal_record N plaintext c).0 ≡ err closed_session
  unfolding seal_record
  seal_record-closed c plaintext shut clean small = ground arith

  open_record-closed :
      (c : Cell N) (frame : Bytes) {ciphertext : Bytes}
      → c.slot ≡ none
      → c.poisoned ≡ false
      → decode_record_frame {S = SnowError} frame ≡ ok ciphertext
      → (open_record N frame c).0 ≡ err closed_session
  unfolding open_record
  open_record-closed c frame shut clean decoded = ground arith

  -- After a receiver whose lock is not poisoned has refused a frame that decodes, the session is
  -- closed for both halves: the sender seals no record of at most 16384 bytes and the receiver
  -- opens no frame that decodes any more.
  pub receiver_closes_sender :
      (s : TransportSession) (heap : Heap N) (bad opened : Bytes) {e : TunnelError SnowError}
      (plaintext frame ciphertext : Bytes)
      → (heap s.state).poisoned ≡ false
      → decode_record_frame {S = SnowError} bad ≡ ok opened
      → (receiver_decrypt_record N (split s).1 bad heap).0 ≡ err e
      → length plaintext ≤ max_plaintext_record
      → decode_record_frame {S = SnowError} frame ≡ ok ciphertext
      → let after = (receiver_decrypt_record N (split s).1 bad heap).1 in
        ((sender_encrypt_record N (split s).0 plaintext after).0 ≡ err closed_session)
        × ((receiver_decrypt_record N (split s).1 frame after).0 ≡ err closed_session)
  unfolding split sender_encrypt_record receiver_decrypt_record at_cell
  receiver_closes_sender s heap bad opened plaintext frame ciphertext clean decoded h small good = (
    rw (==_refl s.state) (seal_record-closed _ plaintext shut clean' small),
    rw (==_refl s.state) (open_record-closed _ frame shut clean' good),
  )
    where
      shut : (open_record N bad (heap s.state)).1.slot ≡ none
      shut = open_record_fail_closed (heap s.state) bad decoded clean h

      clean' : (open_record N bad (heap s.state)).1.poisoned ≡ false
      clean' = open_record-poisoned (heap s.state) bad ∙ clean
