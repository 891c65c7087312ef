-- ===== src/Tunnel/Copy.antt =====
-- The two copying tasks of a connection: `copy_encrypt` and `copy_decrypt` of
-- crates/secure-tunnel-client/src/main.rs and crates/secure-tunnel-server/src/main.rs, which differ
-- in the counter that they add to.
pub mod Delivery
pub mod EndToEnd
pub mod Directions
pub mod Posting
use secure_tunnel.Prelude.{
  ℕ, zero, suc, List, [], ◌∷◌, Option, some, none, Bool, true, false, is_empty, length, Bytes,
  Result, ok, err,
}
use secure_tunnel.Prelude.Exec.{Exec, pure, raise, modify, fail_if, ◌>>=◌, ◌>>◌}
use secure_tunnel.Protocol.Error.{TunnelError, error_chain}
use secure_tunnel.Protocol.Noise.{Noise}
use secure_tunnel.Protocol.Session.{
  TransportSender, TransportReceiver, Heap, sender_encrypt_record, receiver_decrypt_record,
}
use secure_tunnel.Tunnel.Io.{
  Stop, failed, waiting, exhausted, anyhow, Ending, ended, broken, silent, Input, Output, write_all,
  flush, shutdown,
}
use secure_tunnel.Tunnel.Frames.{read_record_frame}
use secure_tunnel.Tunnel.Telemetry.{ConnectionTelemetry, fetch_add}

unfoldable pub add_client_to_server : ℕ → ConnectionTelemetry → ConnectionTelemetry
unfolding fetch_add
add_client_to_server n t = record t {
  bytes_client_to_server = fetch_add t.bytes_client_to_server n;
}

unfoldable pub add_server_to_client : ℕ → ConnectionTelemetry → ConnectionTelemetry
unfolding fetch_add
add_server_to_client n t = record t {
  bytes_server_to_client = fetch_add t.bytes_server_to_client n;
}

module _ (N : Noise) where
  open N use {SnowError, error_text}

  -- What a task works on: the cipher cells, the counters, the activity channel with its one place,
  -- and the writer.
  pub record Task : Type 0 where
    pub heap : Heap N
    pub telemetry : ConnectionTelemetry
    pub activity : Bool
    pub output : Output

  -- A tunnel error that `?` turns into the error of the task.
  abbrev pub as_stop {ℓ} : {A : Type ℓ} → Result (TunnelError SnowError) A → Result Stop A
  as_stop (ok a) = ok a
  as_stop (err e) = err (failed (error_chain error_text e))

  abbrev pub on_heap : {A : Type 0} → Exec (Heap N) (TunnelError SnowError) A → Exec Task Stop A
  on_heap m t = (as_stop (m t.heap).0, record t { heap = (m t.heap).1 })

  abbrev pub on_output : {A : Type 0} → Exec Output Stop A → Exec Task Stop A
  on_output m t = ((m t.output).0, record t { output = (m t.output).1 })

  abbrev pub count : (ConnectionTelemetry → ConnectionTelemetry) → Exec Task Stop (Unit {0})
  count f = modify (λ t. record t { telemetry = f t.telemetry })

  -- `activity.try_send(())`: a full channel stays full.
  abbrev pub notify : Exec Task Stop (Unit {0})
  notify = modify (λ t. record t { activity = true })

  -- One round of `copy_encrypt` on the bytes that a read returned.
  unfoldable pub send_chunk :
      (ℕ → ConnectionTelemetry → ConnectionTelemetry)
      → TransportSender
      → Bytes
      → Exec Task Stop (Unit {0})
  send_chunk add sender chunk = do
    frame ← on_heap (sender_encrypt_record N sender chunk)
    on_output (write_all frame)
    on_output flush
    count (add (length chunk))
    notify

  -- A read that returns no byte is the end of the stream.
  unfoldable pub finish_reading : Ending → Exec Task Stop (Unit {0})
  finish_reading (ended text) = on_output shutdown
  finish_reading (broken text) = raise (failed (anyhow text))
  finish_reading silent = raise waiting

  abbrev unless_empty : Bytes → Exec Task Stop (Unit {0}) → Exec Task Stop (Unit {0})
  unless_empty [] next = on_output shutdown
  unless_empty (b ∷ bytes) next = next

  -- The list holds what the calls of `read` return, one after the other.
  unfoldable pub copy_encrypt :
      (ℕ → ConnectionTelemetry → ConnectionTelemetry)
      → TransportSender
      → List Bytes
      → Ending
      → Exec Task Stop (Unit {0})
  copy_encrypt add sender [] ending = finish_reading ending
  copy_encrypt add sender (chunk ∷ reads) ending =
      unless_empty chunk (send_chunk add sender chunk >> copy_encrypt add sender reads ending)

  -- `copy_decrypt` has the encrypted stream beside its task.
  pub record Drain : Type 0 where
    pub input : Input
    pub task : Task

  abbrev pub on_input : {A : Type 0} → Exec Input Stop A → Exec Drain Stop A
  on_input m d = ((m d.input).0, record d { input = (m d.input).1 })

  abbrev pub on_task : {A : Type 0} → Exec Task Stop A → Exec Drain Stop A
  on_task m d = ((m d.task).0, record d { task = (m d.task).1 })

  unfoldable pub deliver_record :
      (ℕ → ConnectionTelemetry → ConnectionTelemetry)
      → TransportReceiver
      → Bytes
      → Exec Task Stop (Unit {0})
  deliver_record add receiver frame = do
    plaintext ← on_heap (receiver_decrypt_record N receiver frame)
    on_output (write_all plaintext)
    on_output flush
    count (add (length plaintext))
    notify

  -- The loop, with fuel for its rounds.
  unfoldable pub copy_decrypt_loop :
      ℕ
      → (ℕ → ConnectionTelemetry → ConnectionTelemetry)
      → TransportReceiver
      → Exec Drain Stop (Unit {0})
  copy_decrypt_loop zero add receiver = raise exhausted
  copy_decrypt_loop (suc fuel) add receiver = do
    record_frame ← on_input read_record_frame
    elim record_frame [
      | none ↦ on_task (on_output shutdown)
      | some frame ↦
          on_task (deliver_record add receiver frame) >> copy_decrypt_loop fuel add receiver
    ]

  -- Each round takes a byte of the input at least.
  unfoldable pub copy_decrypt :
      (ℕ → ConnectionTelemetry → ConnectionTelemetry)
      → TransportReceiver
      → Exec Drain Stop (Unit {0})
  copy_decrypt add receiver d = copy_decrypt_loop (suc (length d.input.bytes)) add receiver d
