-- ===== src/Protocol/Session.antt =====
-- crates/secure-tunnel/src/lib.rs: the encrypted transport. The cipher state of a session is shared
-- by its two halves (`Arc<Mutex<Option<TransportState>>>`): a heap of cells, one for each address.
pub mod Closing
pub mod Channel
pub mod Duplex
use secure_tunnel.Prelude.{
  ℕ, ◌+◌, ◌-◌, ◌++◌, Option, none, some, true, false, Bool, ltb, ◌==◌, if◌then◌else◌, length, Bytes,
  Result, ok, err, map_err, ok_or,
}
use secure_tunnel.Prelude.Exec.{Exec, pure, lift, gets, modify, fail_if, ◌>>=◌, ◌>>◌}
use secure_tunnel.Protocol.Error.{
  TunnelError, plaintext_too_large, ciphertext_too_large, closed_session, noise,
  poisoned_cipher_state, max_plaintext_record, max_ciphertext_record,
}
use secure_tunnel.Protocol.Frame.{u32_to_be_bytes, decode_record_frame}
use secure_tunnel.Protocol.Noise.{Noise}

-- The address of a shared cell: what cloning an `Arc` copies.
abbrev pub Address : Type 0
Address = ℕ

pub record TransportSession : Type 0 where
  pub state : Address

pub record TransportSender : Type 0 where
  pub state : Address

pub record TransportReceiver : Type 0 where
  pub state : Address

-- Both halves share the one cell.
unfoldable pub split : TransportSession → TransportSender × TransportReceiver
split s = (record { state = s.state }, record { state = s.state })

module _ (N : Noise) where
  open N use {SnowError, TransportState, write_transport, read_transport}

  -- A mutex is poisoned when a thread panicked while it held it.
  pub record Cell : Type 0 where
    pub poisoned : Bool
    pub slot : Option TransportState

  abbrev pub Heap : Type 0
  Heap = Address → Cell

  abbrev pub Locked : Type 0 → Type 0
  Locked = Exec Cell (TunnelError SnowError)

  -- `state.lock()` and `locked.take()`.
  abbrev pub take_transport : Locked TransportState
  take_transport = do
    poisoned ← gets (λ c. c.poisoned)
    fail_if poisoned poisoned_cipher_state
    slot ← gets (λ c. c.slot)
    modify (λ c. record c { slot = none })
    lift (ok_or slot closed_session)

  abbrev pub put_transport : TransportState → Locked (Unit {0})
  put_transport t = modify (λ c. record c { slot = some t })

  unfoldable pub seal_record : Bytes → Locked Bytes
  seal_record plaintext = do
    fail_if (ltb max_plaintext_record (length plaintext)) (plaintext_too_large (length plaintext))
    transport ← take_transport
    (ciphertext, transport') ←
        lift (map_err noise (write_transport transport plaintext (length plaintext + 16)))
    fail_if (ltb max_ciphertext_record (length ciphertext))
        (ciphertext_too_large (length ciphertext))
    fail_if (ltb 4294967295 (length ciphertext)) (ciphertext_too_large (length ciphertext))
    put_transport transport'
    pure (u32_to_be_bytes (length ciphertext) ++ ciphertext)

  -- `saturating_sub` is `-`, which stops at 0.
  unfoldable pub open_record : Bytes → Locked Bytes
  open_record frame = do
    ciphertext ← lift (decode_record_frame frame)
    transport ← take_transport
    (plaintext, transport') ←
        lift (map_err noise (read_transport transport ciphertext (length ciphertext - 16)))
    fail_if (ltb max_plaintext_record (length plaintext)) (plaintext_too_large (length plaintext))
    put_transport transport'
    pure plaintext

  -- Runs an action on the cell at an address.
  unfoldable pub at_cell : {A : Type 0} → Address → Locked A → Exec Heap (TunnelError SnowError) A
  at_cell a m heap = let (r, c) = m (heap a) in (r, λ b. if a == b then c else heap b)

  -- `TransportSession::new` writes a fresh cell.
  unfoldable pub new_session : TransportState → Address → Heap → TransportSession × Heap
  new_session t a heap = (
    record { state = a },
    λ b. if a == b then record { poisoned = false; slot = some t } else heap b,
  )

  pub session_encrypt_record : TransportSession → Bytes → Exec Heap (TunnelError SnowError) Bytes
  session_encrypt_record s plaintext = at_cell s.state (seal_record plaintext)

  pub session_decrypt_record : TransportSession → Bytes → Exec Heap (TunnelError SnowError) Bytes
  session_decrypt_record s frame = at_cell s.state (open_record frame)

  unfoldable pub sender_encrypt_record :
      TransportSender → Bytes → Exec Heap (TunnelError SnowError) Bytes
  sender_encrypt_record s plaintext = at_cell s.state (seal_record plaintext)

  unfoldable pub receiver_decrypt_record :
      TransportReceiver → Bytes → Exec Heap (TunnelError SnowError) Bytes
  receiver_decrypt_record r frame = at_cell r.state (open_record frame)
