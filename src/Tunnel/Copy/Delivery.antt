-- ===== src/Tunnel/Copy/Delivery.antt =====
-- End to end: what `copy_encrypt` reads on one side, `copy_decrypt` writes on the other.
use secure_tunnel.Prelude.{
  ℕ, zero, suc, ◌≤◌, ◌<◌, ◌≡◌, refl, ◌∙◌, List, [], ◌∷◌, ◌++◌, Bool, true, false, length,
  length-append, concat, append_assoc, append-nil, All, Bytes, ok, arith, Text,
}
use secure_tunnel.Prelude.Exec.{◌>>◌}
use secure_tunnel.Protocol.Error.{max_plaintext_record}
use secure_tunnel.Protocol.Noise.{Noise}
use secure_tunnel.Protocol.Session.{
  TransportSender, TransportReceiver, Heap, sender_encrypt_record, receiver_decrypt_record,
}
use secure_tunnel.Protocol.Session.Channel.{
  Channel, Sealed, holding, seal-open, encrypt-linked, decrypt-linked, frame_of,
}
use secure_tunnel.Tunnel.Io.{Ending, ended, write_all, flush, shutdown}
use secure_tunnel.Tunnel.Frames.Wire.{input, read_record_frame-encoded, read_record_frame-end}
use secure_tunnel.Tunnel.Telemetry.{ConnectionTelemetry}
use secure_tunnel.Tunnel.Copy.{
  Task, Drain, send_chunk, deliver_record, finish_reading, copy_encrypt, copy_decrypt_loop,
}

-- What `read` returns before the end of the stream: from 1 byte to a full buffer.
abbrev pub IsChunk : Bytes → Type 0
IsChunk chunk = (1 ≤ length chunk) × (length chunk ≤ max_plaintext_record)

abbrev pub Counter : Type 0
Counter = ℕ → ConnectionTelemetry → ConnectionTelemetry

-- The counter after each of the chunks was added.
unfoldable pub count_all : Counter → List Bytes → ConnectionTelemetry → ConnectionTelemetry
count_all add [] t = t
count_all add (chunk ∷ chunks) t = count_all add chunks (add (length chunk) t)

module _ (N : Noise) (C : Channel N) where
  open N use {TransportState}

  -- A task whose cell holds `t`, and whose writer has written `out` and meets no fault.
  abbrev pub task : Heap N → ConnectionTelemetry → Bool → Bytes → Task N
  task heap tel busy out = record {
    heap = heap;
    telemetry = tel;
    activity = busy;
    output = record { written = out; shut = false; faults = [] };
  }

  -- One chunk sealed and sent, over linked transports.
  send_chunk-linked :
      (add : Counter) (s : TransportSender) (heap : Heap N) (tel : ConnectionTelemetry)
      (busy : Bool) (out : Bytes) (n : ℕ) (a b : TransportState) (chunk : Bytes)
      → heap s.state ≡ holding N a
      → (r : Sealed N C n a b chunk)
      → send_chunk N add s chunk (task heap tel busy out) ≡ (
        ok tt,
        task
            (sender_encrypt_record N s chunk heap).1
            (add (length chunk) tel)
            true
            (out ++ frame_of N r.ciphertext),
      )
  unfolding send_chunk write_all flush
  send_chunk-linked add s heap tel busy out n a b chunk holds r =
      let (sent, kept) = encrypt-linked N C s heap n a b chunk holds r in
      rw sent (rw append-nil refl)

  deliver_record-linked :
      (add : Counter) (s : TransportReceiver) (heap : Heap N) (tel : ConnectionTelemetry)
      (busy : Bool) (out : Bytes) (n : ℕ) (a b : TransportState) (chunk : Bytes)
      → heap s.state ≡ holding N b
      → (r : Sealed N C n a b chunk)
      → deliver_record N add s (frame_of N r.ciphertext) (task heap tel busy out) ≡ (
        ok tt,
        task
            (receiver_decrypt_record N s (frame_of N r.ciphertext) heap).1
            (add (length chunk) tel)
            true
            (out ++ chunk),
      )
  unfolding deliver_record write_all flush
  deliver_record-linked add s heap tel busy out n a b chunk holds r =
      let (opened, kept) = decrypt-linked N C s heap n a b chunk holds r in
      rw opened (rw append-nil refl)

  copy_encrypt-chunk :
      (add : Counter) (s : TransportSender) (chunk : Bytes) (reads : List Bytes) (ending : Ending)
      (t : Task N)
      → 1 ≤ length chunk
      → copy_encrypt N add s (chunk ∷ reads) ending t
        ≡ (send_chunk N add s chunk >> copy_encrypt N add s reads ending) t
  unfolding copy_encrypt
  copy_encrypt-chunk add s [] reads ending t h = absurd (omega arith)
  copy_encrypt-chunk add s (x ∷ chunk) reads ending t h = refl

  abbrev pub shut_task : Task N → Task N
  shut_task t = record t { output = record t.output { shut = true } }

  abbrev pub drain : Bytes → Text → Task N → Drain N
  drain wire text t = record { input = input wire (ended text); task = t }

  abbrev pub busy_after : List Bytes → Bool → Bool
  busy_after [] busy = busy
  busy_after (chunk ∷ chunks) busy = true

  -- One frame taken from the wire and delivered.
  copy_decrypt_loop-frame :
      (add : Counter) (s : TransportReceiver) (fuel : ℕ) (heap : Heap N) (tel : ConnectionTelemetry)
      (busy : Bool) (out wire : Bytes) (text : Text) (n : ℕ) (a b : TransportState) (chunk : Bytes)
      → heap s.state ≡ holding N b
      → IsChunk chunk
      → (r : Sealed N C n a b chunk)
      → copy_decrypt_loop N
          (suc fuel)
          add
          s
          (drain (frame_of N r.ciphertext ++ wire) text (task heap tel busy out))
        ≡ copy_decrypt_loop N fuel add s (
            drain wire text (
              task
                (receiver_decrypt_record N s (frame_of N r.ciphertext) heap).1
                (add (length chunk) tel)
                true
                (out ++ chunk)))
  unfolding copy_decrypt_loop
  copy_decrypt_loop-frame add s fuel heap tel busy out wire text n a b chunk holds sized r =
      let (taken, decoded) =
        read_record_frame-encoded r.ciphertext wire (ended text) N.SnowError (omega (arith, r.size))
          (omega (arith, r.size)) in
      rw taken (rw (deliver_record-linked add s heap tel busy out n a b chunk holds r))

  -- What crosses the tunnel: the bytes on the wire, and the cipher cells of the two sides afterwards.
  pub record Crossing (sender : TransportSender) (receiver : TransportReceiver)
      (add_a add_b : Counter) (heap_a heap_b : Heap N) (tel_a tel_b : ConnectionTelemetry)
      (busy_a busy_b : Bool) (out_a out_b : Bytes) (reads : List Bytes) : Type 0 where
    pub wire : Bytes
    pub final_a : Heap N
    pub final_b : Heap N
    pub encrypted :
        (text : Text)
        → copy_encrypt N add_a sender reads (ended text) (task heap_a tel_a busy_a out_a) ≡ (
          ok tt,
          shut_task (
              task final_a (count_all add_a reads tel_a) (busy_after reads busy_a) (out_a ++ wire)),
        )
    pub decrypted :
        (text : Text) (fuel : ℕ)
        → length wire < fuel
        → copy_decrypt_loop N fuel add_b receiver (drain wire text (task heap_b tel_b busy_b out_b))
          ≡ (
            ok tt,
            drain [] text (
                shut_task (
                  task final_b
                    (count_all add_b reads tel_b)
                    (busy_after reads busy_b)
                    (out_b ++ concat reads))),
          )

  busy_after-true : (chunks : List Bytes) → busy_after chunks true ≡ true
  busy_after-true [] = refl
  busy_after-true (chunk ∷ chunks) = refl

  module _ (s : TransportSender) (r : TransportReceiver) (add_a add_b : Counter)
      (heap_a heap_b : Heap N) (tel_a tel_b : ConnectionTelemetry) (busy_a busy_b : Bool)
      (out_a out_b : Bytes) where
    Crossing-nil : Crossing s r add_a add_b heap_a heap_b tel_a tel_b busy_a busy_b out_a out_b []
    unfolding copy_encrypt finish_reading shutdown count_all
    Crossing-nil = record {
      wire = [];
      final_a = heap_a;
      final_b = heap_b;
      encrypted = λ text. refl;
      decrypted = last;
    }
      where
        last :
            (text : Text) (fuel : ℕ)
            → 0 < fuel
            → copy_decrypt_loop N fuel add_b r (drain [] text (task heap_b tel_b busy_b out_b))
              ≡ (ok tt, drain [] text (shut_task (task heap_b tel_b busy_b (out_b ++ []))))
        last text zero h = absurd (omega arith)
        last text (suc fuel) h = unfold copy_decrypt_loop in rw (read_record_frame-end text)

    Crossing-cons :
        (chunk : Bytes) (reads : List Bytes) (n : ℕ) (a b : TransportState)
        → heap_a s.state ≡ holding N a
        → heap_b r.state ≡ holding N b
        → IsChunk chunk
        → (z : Sealed N C n a b chunk)
        → Crossing s r add_a add_b
            (sender_encrypt_record N s chunk heap_a).1
            (receiver_decrypt_record N r (frame_of N z.ciphertext) heap_b).1
            (add_a (length chunk) tel_a)
            (add_b (length chunk) tel_b)
            true
            true
            (out_a ++ frame_of N z.ciphertext)
            (out_b ++ chunk)
            reads
        → Crossing s r add_a add_b heap_a heap_b tel_a tel_b busy_a busy_b out_a out_b
            (chunk ∷ reads)
    unfolding count_all
    Crossing-cons chunk reads n a b ha hb sized z rest = record {
      wire = frame_of N z.ciphertext ++ rest.wire;
      final_a = rest.final_a;
      final_b = rest.final_b;
      encrypted = λ text.
          copy_encrypt-chunk add_a s chunk reads (ended text) _ sized.0
          ∙ rw (send_chunk-linked add_a s heap_a tel_a busy_a out_a n a b chunk ha z) (
              rw (
                rest.encrypted text,
                busy_after-true reads,
                append_assoc out_a (frame_of N z.ciphertext) rest.wire,
              ));
      decrypted = more;
    }
      where
        more :
            (text : Text) (fuel : ℕ)
            → length (frame_of N z.ciphertext ++ rest.wire) < fuel
            → copy_decrypt_loop N fuel add_b r
                (drain (frame_of N z.ciphertext ++ rest.wire) text (task heap_b tel_b busy_b out_b))
              ≡ (
                ok tt,
                drain [] text (
                    shut_task (
                      task rest.final_b
                        (count_all add_b reads (add_b (length chunk) tel_b))
                        true
                        (out_b ++ (chunk ++ concat reads)))),
              )
        more text zero h = absurd (omega arith)
        more text (suc fuel) h =
            copy_decrypt_loop-frame add_b r fuel heap_b tel_b busy_b out_b rest.wire text n a b
              chunk hb sized z
            ∙ rest.decrypted text fuel
                (omega (arith, length-append (frame_of N z.ciphertext) rest.wire))
            ∙ rw (busy_after-true reads, append_assoc)

  pub crossing :
      (s : TransportSender) (r : TransportReceiver) (add_a add_b : Counter) (heap_a heap_b : Heap N)
      (tel_a tel_b : ConnectionTelemetry) (busy_a busy_b : Bool) (out_a out_b : Bytes)
      (reads : List Bytes) (a b : TransportState)
      → C.Linked (length reads) a b
      → heap_a s.state ≡ holding N a
      → heap_b r.state ≡ holding N b
      → All IsChunk reads
      → Crossing s r add_a add_b heap_a heap_b tel_a tel_b busy_a busy_b out_a out_b reads
  crossing s r add_a add_b heap_a heap_b tel_a tel_b busy_a busy_b out_a out_b [] a b link ha hb
        sized =
      Crossing-nil s r add_a add_b heap_a heap_b tel_a tel_b busy_a busy_b out_a out_b
  crossing s r add_a add_b heap_a heap_b tel_a tel_b busy_a busy_b out_a out_b (chunk ∷ reads) a b
        link ha hb (fits, sized) =
      let z = seal-open N C (length reads) a b chunk link fits.1 in
      Crossing-cons s r add_a add_b heap_a heap_b tel_a tel_b busy_a busy_b out_a out_b chunk reads
        (length reads) a b ha hb fits z
        (crossing s r add_a add_b (sender_encrypt_record N s chunk heap_a).1
          (receiver_decrypt_record N r (frame_of N z.ciphertext) heap_b).1
          (add_a (length chunk) tel_a) (add_b (length chunk) tel_b) true true
          (out_a ++ frame_of N z.ciphertext) (out_b ++ chunk) reads z.sender z.receiver z.linked
          (encrypt-linked N C s heap_a (length reads) a b chunk ha z).1
          (decrypt-linked N C r heap_b (length reads) a b chunk hb z).1 sized)
