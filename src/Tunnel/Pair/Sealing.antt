-- ===== src/Tunnel/Pair/Sealing.antt =====
-- A round of the task that seals, within the two directions of its tunnel.
use secure_tunnel.Prelude.{
  ℕ, suc, ◌-◌, ◌≤◌, ◌≡◌, ◌⊎◌, inl, inr, refl, ap, subst, ◌∙◌, [], ◌∷◌, ◌++◌, append-nil, true,
  length, Bytes, Text, Result, ok, err, ==_refl, ◌==◌, if◌then◌else◌, arith,
}
use secure_tunnel.Protocol.Error.{max_plaintext_record}
use secure_tunnel.Protocol.Noise.{Noise}
use secure_tunnel.Protocol.Session.{
  TransportSession, split, Heap, seal_record, at_cell, sender_encrypt_record,
}
use secure_tunnel.Protocol.Session.Channel.{holding, frame_of}
use secure_tunnel.Protocol.Session.Duplex.{Cipher}
use secure_tunnel.Protocol.Session.Duplex.Steps.{seals-ok}
use secure_tunnel.Tunnel.Io.{Stop, failed, Error}
use secure_tunnel.Tunnel.Copy.Posting.{send_chunk-Posted, shutdown-Posted}
use secure_tunnel.Tunnel.Relay.Tasks.{
  Role, Progress, with_value, runs, finished, aborted, is_running, progress_after, Running, task_of,
  seal_round, seal_move,
}
use secure_tunnel.Tunnel.Pair.Way.{IsCut, Way, Way-aside, Way-stops}
use secure_tunnel.Tunnel.Pair.Records.{Way-seals}

module _ (N : Noise) (C : Cipher N) where
  open N use {TransportState}

  -- The direction from `x`, of whose bytes so many have been carried, to `y`.
  abbrev pub Between : ℕ → Running N → ℕ → Running N → TransportState → TransportState → Type 0
  Between n x carried y =
      Way N C n x.source x.wire_out.written carried x.sealing y.wire_in y.sink.written y.opening

  -- Both directions, seen from `x`, whose cell holds its transport.
  pub record Joined (s : TransportSession) (n m : ℕ) (x : Running N) (c : ℕ) (y : Running N)
      (c' : ℕ) (b : TransportState) : Type 0 where
    pub left : ℕ
    pub enough : n ≤ left
    pub own : TransportState
    pub holds : x.heap s.state ≡ holding N own
    pub out : Between left x c y own b
    pub back : Between m y c' x b own

  abbrev pub IsSmallRead : Result Text Bytes → Type 0
  IsSmallRead (ok bytes) = length bytes ≤ max_plaintext_record
  IsSmallRead (err text) = Unit {0}

  encrypts :
      (s : TransportSession) (heap : Heap N) (a a' : TransportState) (plaintext frame : Bytes)
      → heap s.state ≡ holding N a
      → seal_record N plaintext (holding N a) ≡ (ok frame, holding N a')
      → (heap' : Heap N) × (sender_encrypt_record N (split s).0 plaintext heap ≡ (ok frame, heap'))
        × (heap' s.state ≡ holding N a')
  unfolding sender_encrypt_record at_cell split
  encrypts s heap a a' plaintext frame holds sealed = (
    λ b. if s.state == b then holding N a' else heap b,
    rw (holds, sealed) refl,
    rw (==_refl s.state) refl,
  )

  all_or_cut :
      (result : Result Stop (Unit {0})) (rest : Bytes)
      → ((result ≡ ok tt) × (rest ≡ [])) ⊎ ((e : Error) × (result ≡ err (failed e)))
      → (rest ≡ []) ⊎ IsCut (progress_after (with_value true result))
  all_or_cut result rest (inl (fine, whole)) = inl whole
  all_or_cut result rest (inr (e, bad)) = inr (rw bad (refl, refl))

  pub nothing_cut : (cut rest : Bytes) → [] ≡ cut ++ rest → cut ≡ []
  nothing_cut [] rest e = refl
  nothing_cut (x ∷ cut) rest e = absurd (cc)

  module _ (role : Role) (s : TransportSession) (n m : ℕ) (x : Running N) (c : ℕ) (y : Running N)
      (c' : ℕ) (a b : TransportState) (holds : x.heap s.state ≡ holding N a)
      (out : Between (suc n) x c y a b) (back : Between m y c' x b a) where
    same_side : Joined s n m x c y c' b
    same_side = record {
      left = suc n;
      enough = omega arith;
      own = a;
      holds = holds;
      out = out;
      back = back;
    }

    seal_failed :
        (text : Text)
        → x.sealing ≡ runs
        → Joined s n m (seal_move N role (split s).0 (err text) runs x) c y c' b
    unfolding seal_move seal_round
    seal_failed text running = record {
      left = suc n;
      enough = omega arith;
      own = a;
      holds = holds;
      out = rw (append-nil x.source) (Way-stops N C _ (ap is_running running) out);
      back = back;
    }

    seal_ended :
        x.sealing ≡ runs → Joined s n m (seal_move N role (split s).0 (ok []) runs x) c y c' b
    unfolding seal_move seal_round
    seal_ended running =
        let (kept, p) = shutdown-Posted N (task_of N x x.wire_out) in
        let unchanged : _ ≡ x.wire_out.written =
          p.written ∙ rw (nothing_cut p.cut p.rest p.parts) (append-nil x.wire_out.written) in
        record {
          left = suc n;
          enough = omega arith;
          own = a;
          holds = rw kept holds;
          out = rw (unchanged, append-nil x.source) (Way-stops N C _ (ap is_running running) out);
          back = back;
        }

    sealed :
        (byte : ℕ) (bytes : Bytes)
        → x.sealing ≡ runs
        → length (byte ∷ bytes) ≤ max_plaintext_record
        → Joined s n m (seal_move N role (split s).0 (ok (byte ∷ bytes)) runs x) c y c' b
    unfolding seal_move seal_round
    sealed byte bytes running small =
        let (ciphertext, a', tagged, written, flight, kept) =
          C.seals n m a b out.queue back.queue (byte ∷ bytes) out.flight back.flight
            (omega arith) in
        let (heap', encrypted, held) =
          encrypts s x.heap a a' (byte ∷ bytes) (frame_of N ciphertext) holds
            (seals-ok N C a a' (byte ∷ bytes) ciphertext small tagged written) in
        let (same, p) =
          send_chunk-Posted N role.add_sealed (task_of N x x.wire_out) heap' (split s).0
            (byte ∷ bytes) (frame_of N ciphertext) encrypted in
        record {
          left = n;
          enough = omega arith;
          own = a';
          holds = rw same held;
          out = rw p.written (
              Way-seals N C (byte ∷ bytes) ciphertext p.cut p.rest _ out (ap is_running running)
                flight (small, tagged) p.parts (all_or_cut _ p.rest p.outcome));
          back = Way-aside N C back kept;
        }

  pub fewer :
      {s : TransportSession} {n n' m : ℕ} {x : Running N} {c : ℕ} {y : Running N} {c' : ℕ}
      {b : TransportState}
      → n ≤ n'
      → Joined s n' m x c y c' b
      → Joined s n m x c y c' b
  fewer h k = record {
    left = k.left;
    enough = omega (arith, k.enough);
    own = k.own;
    holds = k.holds;
    out = k.out;
    back = k.back;
  }

  one_left :
      {s : TransportSession} {n m : ℕ} {x : Running N} {c : ℕ} {y : Running N} {c' : ℕ}
      {b : TransportState} (k : Joined s (suc n) m x c y c' b)
      → Between (suc (k.left - 1)) x c y k.own b
  one_left {x = x} {c} {y} {b = b} k =
      let h : k.left ≡ suc (k.left - 1) = omega (arith, k.enough) in
      subst (λ l. Between l x c y k.own b) h k.out

  -- Whatever the call of `read` returns.
  pub seal_move-Joined :
      (role : Role) (s : TransportSession) (n m : ℕ) (result : Result Text Bytes) (p : Progress)
      (x : Running N) (c : ℕ) (y : Running N) (c' : ℕ) (b : TransportState)
      → x.sealing ≡ p
      → IsSmallRead result
      → Joined s (suc n) m x c y c' b
      → Joined s n m (seal_move N role (split s).0 result p x) c y c' b
  unfolding seal_move
  seal_move-Joined role s n m result (finished j) x c y c' b running small k = fewer (omega arith) k
  seal_move-Joined role s n m result aborted x c y c' b running small k = fewer (omega arith) k
  seal_move-Joined role s n m (err text) runs x c y c' b running small k =
      fewer (omega (arith, k.enough)) (
        seal_failed role s (k.left - 1) m x c y c' k.own b k.holds (one_left k) k.back text running)
  seal_move-Joined role s n m (ok []) runs x c y c' b running small k =
      fewer (omega (arith, k.enough))
        (seal_ended role s (k.left - 1) m x c y c' k.own b k.holds (one_left k) k.back running)
  seal_move-Joined role s n m (ok (byte ∷ bytes)) runs x c y c' b running small k =
      fewer (omega (arith, k.enough)) (
        sealed role s (k.left - 1) m x c y c' k.own b k.holds (one_left k) k.back byte bytes running
          small)
