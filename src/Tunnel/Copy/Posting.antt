-- ===== src/Tunnel/Copy/Posting.antt =====
-- What one round of a copying task puts out, whatever its writer meets.
use secure_tunnel.Prelude.{
  ◌≡◌, refl, ◌⊎◌, inl, inr, List, [], ◌∷◌, ◌++◌, append-nil, take, take_nil, drop, take-append-drop,
  Bool, length, Result-cases, ap, Bytes, Result, ok, err, arith,
}
use secure_tunnel.Prelude.Exec.{Exec, ◌>>◌}
use secure_tunnel.Protocol.Error.{error_chain}
use secure_tunnel.Protocol.Noise.{Noise}
use secure_tunnel.Protocol.Session.{
  TransportSender, TransportReceiver, Heap, sender_encrypt_record, receiver_decrypt_record,
}
use secure_tunnel.Tunnel.Io.{Error, Stop, failed, Fault, fine, breaks, write_all, flush, shutdown}
use secure_tunnel.Tunnel.Telemetry.{ConnectionTelemetry}
use secure_tunnel.Tunnel.Copy.{Task, on_output, count, notify, send_chunk, deliver_record}

-- A writer has put out all of the bytes, or a part of them and an error.
pub record Posted (bytes before after : Bytes) (result : Result Stop (Unit {0})) : Type 0 where
  pub cut : Bytes
  pub rest : Bytes
  pub written : after ≡ before ++ cut
  pub parts : bytes ≡ cut ++ rest
  pub outcome : ((result ≡ ok tt) × (rest ≡ [])) ⊎ ((e : Error) × (result ≡ err (failed e)))

pub Posted-ok :
    {bytes before after : Bytes} {u : Unit {0}}
    → (p : Posted bytes before after (ok u)) → p.rest ≡ []
Posted-ok p = elim p.outcome [ inl (good, whole) ↦ whole | inr (e, bad) ↦ absurd (cc) ]

-- A round either succeeds or fails: it waits for nothing once it has its bytes.
abbrev pub IsSettled : Result Stop (Unit {0}) → Type 0
IsSettled r = (r ≡ ok tt) ⊎ ((e : Error) × (r ≡ err (failed e)))

Posted-IsSettled :
    {bytes before after : Bytes} {r : Result Stop (Unit {0})}
    → Posted bytes before after r
    → IsSettled r
Posted-IsSettled p = elim p.outcome [ inl (good, whole) ↦ inl good | inr (e, bad) ↦ inr (e, bad) ]

module _ (N : Noise) where
  abbrev task_with : Heap N → ConnectionTelemetry → Bool → Bytes → Bool → List Fault → Task N
  task_with heap telemetry activity written shut faults = record {
    heap = heap;
    telemetry = telemetry;
    activity = activity;
    output = record { written = written; shut = shut; faults = faults };
  }

  abbrev post : (ConnectionTelemetry → ConnectionTelemetry) → Bytes → Exec (Task N) Stop (Unit {0})
  post f bytes = do on_output N (write_all bytes); on_output N flush; count N f; notify N

  post-Posted :
      (f : ConnectionTelemetry → ConnectionTelemetry) (bytes : Bytes) (heap : Heap N)
      (telemetry : ConnectionTelemetry) (activity : Bool) (written : Bytes) (shut : Bool)
      (faults : List Fault)
      → let (result, t) = post f bytes (task_with heap telemetry activity written shut faults) in
        (t.heap ≡ heap) × Posted bytes written t.output.written result
  unfolding write_all flush
  post-Posted f bytes heap telemetry activity written shut [] = (
    refl,
    record {
      cut = bytes;
      rest = [];
      written = append-nil _;
      parts = ground (arith, append-nil bytes);
      outcome = inl (refl, refl);
    },
  )
  post-Posted f bytes heap telemetry activity written shut (breaks n text ∷ faults) = (
    refl,
    record {
      cut = take n bytes;
      rest = drop n bytes;
      written = refl;
      parts = ground (arith, take-append-drop n bytes);
      outcome = inr (text ∷ [], refl);
    },
  )
  post-Posted f bytes heap telemetry activity written shut (fine ∷ []) = (
    refl,
    record {
      cut = bytes;
      rest = [];
      written = append-nil _;
      parts = ground (arith, append-nil bytes);
      outcome = inl (refl, refl);
    },
  )
  post-Posted f bytes heap telemetry activity written shut (fine ∷ fine ∷ faults) = (
    refl,
    record {
      cut = bytes;
      rest = [];
      written = append-nil _;
      parts = ground (arith, append-nil bytes);
      outcome = inl (refl, refl);
    },
  )
  post-Posted f bytes heap telemetry activity written shut (fine ∷ breaks n text ∷ faults) = (
    refl,
    record {
      cut = bytes;
      rest = [];
      written = rw (take_nil n) (append-nil _);
      parts = ground (arith, append-nil bytes);
      outcome = inr (text ∷ [], refl);
    },
  )

  module _ (add : _) (t : Task N) (heap : Heap N) where
    pub send_chunk-Posted :
        (s : TransportSender) (chunk frame : Bytes)
        → sender_encrypt_record N s chunk t.heap ≡ (ok frame, heap)
        → let (result, t') = send_chunk N add s chunk t in
          (t'.heap ≡ heap) × Posted frame t.output.written t'.output.written result
    unfolding send_chunk
    send_chunk-Posted s chunk frame sealed =
        rw (sealed, send_chunk)
          (post-Posted (add (length chunk)) frame heap t.telemetry t.activity t.output.written
            t.output.shut t.output.faults)

    pub deliver_record-Posted :
        (r : TransportReceiver) (frame plaintext : Bytes)
        → receiver_decrypt_record N r frame t.heap ≡ (ok plaintext, heap)
        → let (result, t') = deliver_record N add r frame t in
          (t'.heap ≡ heap) × Posted plaintext t.output.written t'.output.written result
    unfolding deliver_record
    deliver_record-Posted r frame plaintext opened =
        rw (opened, deliver_record)
          (post-Posted (add (length plaintext)) plaintext heap t.telemetry t.activity
            t.output.written t.output.shut t.output.faults)

  shut_down-Posted :
      (heap : Heap N) (telemetry : ConnectionTelemetry) (activity : Bool) (written : Bytes)
      (shut : Bool) (faults : List Fault)
      → let (result, t) =
          on_output N shutdown (task_with heap telemetry activity written shut faults) in
        (t.heap ≡ heap) × Posted [] written t.output.written result
  unfolding shutdown
  shut_down-Posted heap telemetry activity written shut [] = (
    refl,
    record { cut = []; rest = []; written = refl; parts = refl; outcome = inl (refl, refl) },
  )
  shut_down-Posted heap telemetry activity written shut (fine ∷ faults) = (
    refl,
    record { cut = []; rest = []; written = refl; parts = refl; outcome = inl (refl, refl) },
  )
  shut_down-Posted heap telemetry activity written shut (breaks n text ∷ faults) = (
    refl,
    record {
      cut = [];
      rest = [];
      written = rw (take_nil n) refl;
      parts = refl;
      outcome = inr (text ∷ [], refl);
    },
  )

  pub send_chunk-IsSettled :
      (add : _) (s : TransportSender) (chunk : Bytes) (t : Task N)
      → IsSettled (send_chunk N add s chunk t).0
  unfolding send_chunk
  send_chunk-IsSettled add s chunk t =
      elim (Result-cases (sender_encrypt_record N s chunk t.heap).0) [
        | inr (e, bad) ↦ inr (error_chain N.error_text e, rw (bad, send_chunk) refl)
        | inl (frame, sealed) ↦
            Posted-IsSettled
              (send_chunk-Posted add t (sender_encrypt_record N s chunk t.heap).1 s chunk frame
                (ap (λ r. (r, (sender_encrypt_record N s chunk t.heap).1)) sealed)).1
      ]

  pub deliver_record-IsSettled :
      (add : _) (r : TransportReceiver) (frame : Bytes) (t : Task N)
      → IsSettled (deliver_record N add r frame t).0
  unfolding deliver_record
  deliver_record-IsSettled add r frame t =
      elim (Result-cases (receiver_decrypt_record N r frame t.heap).0) [
        | inr (e, bad) ↦ inr (error_chain N.error_text e, rw (bad, deliver_record) refl)
        | inl (plaintext, opened) ↦
            Posted-IsSettled
              (deliver_record-Posted add t (receiver_decrypt_record N r frame t.heap).1 r frame
                plaintext (ap (λ x. (x, (receiver_decrypt_record N r frame t.heap).1)) opened)).1
      ]

  -- Shutting a writer down puts nothing out, and goes well or fails.
  pub shutdown-Posted :
      (t : Task N)
      → let (result, t') = on_output N shutdown t in
        (t'.heap ≡ t.heap) × Posted [] t.output.written t'.output.written result
  shutdown-Posted t =
      shut_down-Posted t.heap t.telemetry t.activity t.output.written t.output.shut t.output.faults

  pub shutdown-IsSettled : (t : Task N) → IsSettled (on_output N shutdown t).0
  shutdown-IsSettled t = Posted-IsSettled (shutdown-Posted t).1
