-- ===== src/Tunnel/Pair/Opening.antt =====
-- A round of the task that opens, within the two directions of its tunnel.
use secure_tunnel.Prelude.{
  ℕ, ◌≡◌, ◌⊎◌, inl, inr, refl, ap, subst, List, [], ◌∷◌, ◌++◌, append-nil, Option, none, some, true,
  false, drop, concat, All, Bytes, Text, Result, ok, err, ==_refl, ◌==◌, if◌then◌else◌,
}
use secure_tunnel.Prelude.Exec.{continue}
use secure_tunnel.Protocol.Noise.{Noise}
use secure_tunnel.Protocol.Session.{
  TransportSession, split, Heap, open_record, at_cell, receiver_decrypt_record,
}
use secure_tunnel.Protocol.Session.Channel.{holding, frame_of}
use secure_tunnel.Protocol.Session.Duplex.{Cipher, Record}
use secure_tunnel.Protocol.Session.Duplex.Steps.{Fits, frames, opens-ok}
use secure_tunnel.Tunnel.Io.{Stop, failed, waiting, exhausted, Error, Input, ended}
use secure_tunnel.Tunnel.Frames.{read_record_frame}
use secure_tunnel.Tunnel.Frames.Wire.{input}
use secure_tunnel.Tunnel.Frames.Short.{NoRecord, waits, fails, at_end}
use secure_tunnel.Tunnel.Copy.{Task}
use secure_tunnel.Tunnel.Copy.Posting.{Posted, Posted-ok, deliver_record-Posted, shutdown-Posted}
use secure_tunnel.Tunnel.Relay.Tasks.{
  Role, Progress, runs, finished, aborted, with_value, Running, task_of, open_round, opened_round,
  opened_by, open_move,
}
use secure_tunnel.Tunnel.Pair.Way.{Way-aside, Live}
use secure_tunnel.Tunnel.Pair.Records.{
  Reading, no_record, next_record, reading, Way-opens, Way-fails, Way-ends,
}
use secure_tunnel.Tunnel.Pair.Sealing.{Joined, nothing_cut}

NoRecord-cases :
    {i : Input} {r : Result Stop (Option Bytes)}
    → NoRecord i r
    → ((r ≡ err waiting) ⊎ ((e : Error) × (r ≡ err (failed e))))
      ⊎ ((text : Text) × (r ≡ ok none) × (i ≡ input [] (ended text)))
NoRecord-cases waits = inl (inl refl)
NoRecord-cases fails = inl (inr (_, refl))
NoRecord-cases at_end = inr (_, refl, refl)

module _ (N : Noise) (C : Cipher N) where
  open N use {TransportState}

  decrypts :
      (s : TransportSession) (heap : Heap N) (a a' : TransportState) (plaintext frame : Bytes)
      → heap s.state ≡ holding N a
      → open_record N frame (holding N a) ≡ (ok plaintext, holding N a')
      → (heap' : Heap N) × (receiver_decrypt_record N (split s).1 frame heap
          ≡ (ok plaintext, heap'))
        × (heap' s.state ≡ holding N a')
  unfolding receiver_decrypt_record at_cell split
  decrypts s heap a a' plaintext frame holds opened = (
    λ b. if s.state == b then holding N a' else heap b,
    rw (holds, opened) refl,
    rw (==_refl s.state) refl,
  )

  module _ (role : Role) (s : TransportSession) (n m : ℕ) (x : Running N) (c : ℕ) (y : Running N)
      (c' : ℕ) (b : TransportState) (running : x.opening ≡ runs) (k : Joined N C s n m x c y c' b)
      (l : Live N C y.wire_out.written c' y.sealing x.wire_in x.opening k.back.queue)
      (none_lost : k.back.lost ≡ []) where
    -- The round, once the reader has returned.
    abbrev after_read : Result Stop (Option Bytes) → Input → Running N
    after_read r i = opened_by N x (
        continue r (opened_round N role (split s).1)
          (record { input = i; task = task_of N x x.sink }))

    read_failed :
        (e : Error) (i : Input) → Joined N C s n m (after_read (err (failed e)) i) c y c' b
    read_failed e i = record {
      left = k.left;
      enough = k.enough;
      own = k.own;
      holds = k.holds;
      out = k.out;
      back = Way-fails N C i _ (refl, refl) k.back;
    }

    shut_down :
        (text : Text) (i : Input) (r : Result Stop (Unit {0})) (t : Task N)
        → x.wire_in ≡ input [] (ended text)
        → t.heap ≡ x.heap
        → Posted [] x.sink.written t.output.written r
        → Joined N C s n m
            (opened_by N x (with_value false r, record { input = i; task = t }))
            c
            y
            c'
            b
    shut_down text i (ok u) t met same p = record {
      left = k.left;
      enough = k.enough;
      own = k.own;
      holds = rw same k.holds;
      out = k.out;
      back =
          rw (p.written, nothing_cut N C p.cut p.rest p.parts, append-nil x.sink.written)
            (Way-ends N C text i _ refl k.back l none_lost (ap (λ i. i.bytes) met)
              (ap (λ i. i.ending) met));
    }
    shut_down text i (err (failed e)) t met same p = record {
      left = k.left;
      enough = k.enough;
      own = k.own;
      holds = rw same k.holds;
      out = k.out;
      back =
          rw (p.written, nothing_cut N C p.cut p.rest p.parts, append-nil x.sink.written)
            (Way-fails N C i _ (refl, refl) k.back);
    }
    shut_down text i (err waiting) t met same p = k
    shut_down text i (err exhausted) t met same p = k

    module _ (plaintext ciphertext bytes : Bytes) (q : List (Record N))
        (next : k.back.queue ≡ (plaintext, ciphertext) ∷ q)
        (rest : (bytes ++ drop c' y.wire_out.written) ++ l.missing ≡ concat (frames N C q))
        (a' : TransportState) (flight : C.Flight m b q a')
        (kept : C.Flight k.left a' k.out.queue b) where
      delivered :
          (r : Result Stop (Unit {0})) (t : Task N)
          → t.heap s.state ≡ holding N a'
          → Posted plaintext x.sink.written t.output.written r
          → Joined N C s n m
              (opened_by N x
                (with_value true r, record { input = input bytes x.wire_in.ending; task = t }))
              c
              y
              c'
              b
      delivered (ok u) t held p = record {
        left = k.left;
        enough = k.enough;
        own = a';
        holds = held;
        out = Way-aside N C k.out kept;
        back = rw p.written (
            Way-opens N C plaintext ciphertext bytes p.cut p.rest q runs k.back l none_lost next
              rest flight p.parts (inl (Posted-ok p, refl)));
      }
      delivered (err (failed e)) t held p = record {
        left = k.left;
        enough = k.enough;
        own = a';
        holds = held;
        out = Way-aside N C k.out kept;
        back = rw p.written (
            Way-opens N C plaintext ciphertext bytes p.cut p.rest q _ k.back l none_lost next rest
              flight p.parts (inr (refl, refl)));
      }
      delivered (err waiting) t held p = k
      delivered (err exhausted) t held p = k

    opened :
        (plaintext ciphertext bytes : Bytes) (q : List (Record N))
        → k.back.queue ≡ (plaintext, ciphertext) ∷ q
        → (bytes ++ drop c' y.wire_out.written) ++ l.missing ≡ concat (frames N C q)
        → Joined N C s n m
            (after_read (ok (some (frame_of N ciphertext))) (input bytes x.wire_in.ending))
            c
            y
            c'
            b
    opened plaintext ciphertext bytes q next rest =
        let (small, tagged) = (subst (All (Fits N C)) next k.back.fits).0 in
        let (own', read, flight, kept) =
          C.opens m k.left b k.own plaintext ciphertext q k.out.queue
            (subst (λ q'. C.Flight m b q' k.own) next k.back.flight) k.out.flight in
        let (heap', decrypted, held) =
          decrypts s x.heap k.own own' plaintext (frame_of N ciphertext) k.holds
            (opens-ok N C k.own own' plaintext ciphertext small tagged read) in
        let (same, p) =
          deliver_record-Posted N role.add_opened (task_of N x x.sink) heap' (split s).1
            (frame_of N ciphertext) plaintext decrypted in
        delivered plaintext ciphertext bytes q next rest own' flight kept _ _ (rw same held) p

    read_by :
        Reading N C x.wire_in (drop c' y.wire_out.written) l.missing k.back.queue
        → Joined N C s n m
            (after_read (read_record_frame x.wire_in).0 (read_record_frame x.wire_in).1)
            c
            y
            c'
            b
    read_by (no_record none_read) = elim (NoRecord-cases none_read) [
      | inl (inl waiting_on) ↦ rw waiting_on k
      | inl (inr (e, bad)) ↦ rw bad (read_failed e _)
      | inr (text, none_left, met) ↦
          let (same, p) = shutdown-Posted N (task_of N x x.sink) in
          rw none_left (shut_down text _ _ _ met same p)
    ]
    read_by (next_record plaintext ciphertext bytes q next got rest) =
        rw got (opened plaintext ciphertext bytes q next rest)

  -- Whatever has arrived.
  pub open_move-Joined :
      (role : Role) (s : TransportSession) (n m : ℕ) (p : Progress) (x : Running N) (c : ℕ)
      (y : Running N) (c' : ℕ) (b : TransportState)
      → x.opening ≡ p
      → Joined N C s n m x c y c' b
      → Joined N C s n m (open_move N role (split s).1 p x) c y c' b
  unfolding open_move open_round
  open_move-Joined role s n m (finished j) x c y c' b running k = k
  open_move-Joined role s n m aborted x c y c' b running k = k
  open_move-Joined role s n m runs x c y c' b running k = elim k.back.state [
    | inr (stopped, how) ↦ absurd (cc)
    | inl (none_lost, l) ↦ read_by role s n m x c y c' b running k l none_lost (
        reading N C x.wire_in.bytes (drop c' y.wire_out.written) l.missing x.wire_in.ending
          k.back.queue k.back.fits l.on_wire)
  ]
