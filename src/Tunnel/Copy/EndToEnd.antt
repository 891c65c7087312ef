-- ===== src/Tunnel/Copy/EndToEnd.antt =====
-- The two copying tasks of one direction, joined by the wire, and the end of `copy_decrypt`.
use secure_tunnel.Prelude.{
  ℕ, zero, suc, ◌<◌, ◌≡◌, ◌≢◌, List, [], ◌∷◌, some, none, true, false, Bool, length, Result-cases,
  inl, inr, concat, All, Bytes, Text, ok, err, arith,
}
use secure_tunnel.Protocol.Noise.{Noise}
use secure_tunnel.Protocol.Session.{
  TransportSender, TransportReceiver, Heap, receiver_decrypt_record,
}
use secure_tunnel.Protocol.Session.Channel.{Channel, holding}
use secure_tunnel.Tunnel.Io.{
  exhausted, Ending, ended, Output, Fault, fine, breaks, put_out, write_all, flush, shutdown,
}
use secure_tunnel.Tunnel.Frames.{read_record_frame}
use secure_tunnel.Tunnel.Frames.Wire.{
  input, read_record_frame-ne-exhausted, read_record_frame-shrinks,
}
use secure_tunnel.Tunnel.Telemetry.{ConnectionTelemetry}
use secure_tunnel.Tunnel.Copy.{
  Task, Drain, copy_encrypt, copy_decrypt_loop, copy_decrypt, deliver_record,
}
use secure_tunnel.Tunnel.Copy.Delivery.{
  IsChunk, Counter, count_all, task, shut_task, drain, busy_after, crossing,
}

put_out-ne-exhausted :
    (bytes : Bytes) (closing : Bool) (faults : List Fault) (o : Output)
    → (put_out bytes closing faults o).0 ≢ err exhausted
put_out-ne-exhausted bytes closing [] o = λ e. cc
put_out-ne-exhausted bytes closing (fine ∷ rest) o = λ e. cc
put_out-ne-exhausted bytes closing (breaks n text ∷ rest) o = λ e. cc

module _ (N : Noise) where
  deliver_record-ne-exhausted :
      (add : Counter) (r : TransportReceiver) (frame : Bytes) (t : Task N)
      → (deliver_record N add r frame t).0 ≢ err exhausted
  unfolding deliver_record write_all flush
  deliver_record-ne-exhausted add r frame t =
      elim (Result-cases (receiver_decrypt_record N r frame t.heap).0) [
        | inr (e, failed) ↦ ground arith
        | inl (plain, opened) ↦
            let first = put_out plain t.output.shut t.output.faults t.output in
            ground (
              arith,
              put_out-ne-exhausted plain t.output.shut t.output.faults t.output,
              put_out-ne-exhausted [] first.1.shut first.1.faults first.1,
            )
      ]

  loop-ne-exhausted :
      (add : Counter) (r : TransportReceiver) (fuel : ℕ) (bytes : Bytes) (ending : Ending)
      (t : Task N)
      → length bytes < fuel
      → (copy_decrypt_loop N fuel add r (record { input = input bytes ending; task = t })).0
        ≢ err exhausted
  unfolding copy_decrypt_loop shutdown
  loop-ne-exhausted add r zero bytes ending t h = absurd (omega arith)
  loop-ne-exhausted add r (suc fuel) bytes ending t h =
      elim (Result-cases (read_record_frame (input bytes ending)).0) [
        | inr (e, failed) ↦ ground (arith, read_record_frame-ne-exhausted bytes ending)
        | inl (none, got) ↦ ground (arith, put_out-ne-exhausted [] true t.output.faults t.output)
        | inl (some frame, got) ↦
            let rest = (read_record_frame (input bytes ending)).1 in
            ground (
              arith,
              deliver_record-ne-exhausted add r frame t,
              read_record_frame-shrinks bytes ending frame,
              loop-ne-exhausted add r fuel rest.bytes rest.ending
                  (deliver_record N add r frame t).1,
            )
      ]

  -- `copy_decrypt` comes to an end on every input, with every cipher state and every writer: its
  -- rounds never run out of fuel, so it returns, or waits for input that has not come.
  pub copy_decrypt-ne-exhausted :
      (add : Counter) (r : TransportReceiver) (d : Drain N)
      → (copy_decrypt N add r d).0 ≢ err exhausted
  unfolding copy_decrypt
  copy_decrypt-ne-exhausted add r d =
      loop-ne-exhausted add r (suc (length d.input.bytes)) d.input.bytes d.input.ending d.task
        (omega arith)

module _ (N : Noise) (C : Channel N) where
  -- One direction of the tunnel. Whatever the pieces of 1 to 16384 bytes in which the plaintext
  -- is read, when the two sides' cells hold transports that are in step for that many records and
  -- no writer fails: the encrypting task ends well and shuts its writer down, and the decrypting
  -- task, fed the bytes that the first has written to the wire, ends well, has written exactly
  -- the bytes read, in order, and has shut its writer down. Both have added every piece to their
  -- counter.
  tunnel_delivers :
      (s : TransportSender) (r : TransportReceiver) (add_a add_b : Counter) (heap_a heap_b : Heap N)
      (tel_a tel_b : ConnectionTelemetry) (reads : List Bytes) (a b : N.TransportState)
      (text : Text)
      → C.Linked (length reads) a b
      → heap_a s.state ≡ holding N a
      → heap_b r.state ≡ holding N b
      → All IsChunk reads
      → (wire : Bytes) × (final_a : Heap N) × (final_b : Heap N) × (copy_encrypt N add_a s reads
            (ended text)
            (task N C heap_a tel_a false [])
          ≡ (
            ok tt,
            shut_task N C
                (task N C final_a (count_all add_a reads tel_a) (busy_after N C reads false) wire),
          ))
        × (copy_decrypt N add_b r (drain N C wire text (task N C heap_b tel_b false [])) ≡ (
          ok tt,
          drain N C [] text (
              shut_task N C (
                task N C final_b
                  (count_all add_b reads tel_b)
                  (busy_after N C reads false)
                  (concat reads))),
        ))
  unfolding copy_decrypt
  tunnel_delivers s r add_a add_b heap_a heap_b tel_a tel_b reads a b text link ha hb sized =
      let c =
        crossing N C s r add_a add_b heap_a heap_b tel_a tel_b false false [] [] reads a b link ha
          hb sized in
      (
        c.wire,
        c.final_a,
        c.final_b,
        c.encrypted text,
        c.decrypted text (suc (length c.wire)) (omega arith),
      )
