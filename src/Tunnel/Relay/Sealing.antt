-- ===== src/Tunnel/Relay/Sealing.antt =====
-- The task that seals, while nothing else moves: its rounds make up the whole of `copy_encrypt`.
use secure_tunnel.Prelude.{
  ℕ, ◌≡◌, refl, sym, ap, subst, ◌∙◌, inl, inr, List, [], ◌∷◌, map, true, false, Bytes, Text, Result,
  ok, err,
}
use secure_tunnel.Prelude.Exec.{Exec, continue}
use secure_tunnel.Protocol.Noise.{Noise}
use secure_tunnel.Protocol.Session.{TransportSession, split}
use secure_tunnel.Tunnel.Io.{Stop, failed, waiting, exhausted, ended, shutdown}
use secure_tunnel.Tunnel.Copy.{Task, on_output, send_chunk, finish_reading, copy_encrypt}
use secure_tunnel.Tunnel.Copy.Posting.{IsSettled, send_chunk-IsSettled, shutdown-IsSettled}
use secure_tunnel.Tunnel.Relay.Tasks.{
  Role, reads, Progress, runs, finished, aborted, is_running, progress_after, with_value, Running,
  seal_move, seal_round, sealed_by, task_of, move, moves,
}

-- How a task stands after a result.
abbrev pub stands : Result Stop (Unit {0}) → Progress
stands r = progress_after (with_value false r)

-- The reads of `copy_encrypt` that follow one another, up to the end of the stream.
abbrev pub read_all : List Bytes → List (Result Text Bytes)
read_all [] = ok [] ∷ []
read_all (chunk ∷ chunks) = ok chunk ∷ read_all chunks

module _ (N : Noise) (role : Role) (session : TransportSession) (idle : ℕ) where
  -- What the rounds have left is what a result and a state of the task say.
  pub record Sealed (x : Running N) (r : Result Stop (Unit {0})) (t : Task N) : Type 0 where
    pub heap : x.heap ≡ t.heap
    pub telemetry : x.telemetry ≡ t.telemetry
    pub activity : x.activity ≡ t.activity
    pub wire_out : x.wire_out ≡ t.output
    pub sealing : x.sealing ≡ stands r

  unfoldable pub seal_moves : List (Result Text Bytes) → Running N → Running N
  seal_moves results = moves N role session idle (map reads results)

  -- A task that has ended takes no more rounds.
  seal_moves_idle :
      (results : List (Result Text Bytes)) (x : Running N)
      → is_running x.sealing ≡ false
      → seal_moves results x ≡ x
  unfolding seal_moves moves move
  seal_moves_idle [] x h = refl
  seal_moves_idle (result ∷ results) x h =
      ap (moves N role session idle (map reads results)) (unmoved x.sealing h)
      ∙ seal_moves_idle results x h
    where
      unmoved :
          (p : Progress) → is_running p ≡ false → seal_move N role (split session).0 result p x ≡ x
      unmoved runs h = absurd (cc)
      unmoved (finished j) h = refl
      unmoved aborted h = refl

  settled_idle : (r : Result Stop (Unit {0})) → IsSettled r → is_running (stands r) ≡ false
  settled_idle r (inl good) = rw good refl
  settled_idle r (inr (e, bad)) = rw bad refl

  -- Once a round has ended the task, its state is what that round has left.
  ended-Sealed :
      (results : List (Result Text Bytes)) (x : Running N) (r : Result Stop (Unit {0})) (t : Task N)
      → is_running x.sealing ≡ false
      → Sealed x r t
      → Sealed (seal_moves results x) r t
  ended-Sealed results x r t h s = subst (λ y. Sealed y r t) (sym (seal_moves_idle results x h)) s

  first_round :
      (result : Result Text Bytes) (results : List (Result Text Bytes)) (x : Running N)
      (r : Result Stop (Unit {0})) (t : Task N)
      → x.sealing ≡ runs
      → Sealed (seal_moves results (seal_move N role (split session).0 result runs x)) r t
      → Sealed (seal_moves (result ∷ results) x) r t
  unfolding seal_moves moves move
  first_round result results x r t running s =
      subst (λ p. Sealed (seal_moves results (seal_move N role (split session).0 result p x)) r t)
        (sym running) s

  shut_down-Sealed :
      (results : List (Result Text Bytes)) (x : Running N)
      → x.sealing ≡ runs
      → let (r, t) = on_output N shutdown (task_of N x x.wire_out) in
        Sealed (seal_moves (ok [] ∷ results) x) r t
  unfolding seal_move seal_round
  shut_down-Sealed results x running = first_round (ok []) results x _ _ running (
      ended-Sealed results _ _ _ (settled_idle _ (shutdown-IsSettled N (task_of N x x.wire_out)))
        (record {
          heap = refl;
          telemetry = refl;
          activity = refl;
          wire_out = refl;
          sealing = refl;
        }))

  round-Sealed :
      (bytes : Bytes) (results : List (Result Text Bytes)) (x : Running N)
      (rest : Exec (Task N) Stop (Unit {0})) (r : Result Stop (Unit {0})) (t : Task N)
      → IsSettled r
      → ((x' : Running N)
          → x'.sealing ≡ runs
          → let (r', t') = rest (task_of N x' x'.wire_out) in Sealed (seal_moves results x') r' t')
      → Sealed
          (seal_moves results (sealed_by N x bytes (with_value true r, t)))
          (continue r (λ u. rest) t).0
          (continue r (λ u. rest) t).1
  round-Sealed bytes results x rest (ok u) t h later = later (sealed_by N x bytes (ok true, t)) refl
  round-Sealed bytes results x rest (err (failed e)) t h later =
      ended-Sealed results _ _ _ refl
        (record { heap = refl; telemetry = refl; activity = refl; wire_out = refl; sealing = refl })
  round-Sealed bytes results x rest (err waiting) t h later = elim h [
    | inl good ↦ absurd (cc)
    | inr (e, bad) ↦ absurd (cc)
  ]
  round-Sealed bytes results x rest (err exhausted) t h later = elim h [
    | inl good ↦ absurd (cc)
    | inr (e, bad) ↦ absurd (cc)
  ]

  -- The task that seals, while nothing else moves, over the reads that `copy_encrypt` makes up to the end
  -- of its stream, leaves what `copy_encrypt` leaves: cells, counters, activity, writer, and its result.
  seal_moves-copy_encrypt :
      (chunks : List Bytes) (text : Text) (x : Running N)
      → x.sealing ≡ runs
      → let (r, t) =
          copy_encrypt N role.add_sealed
            (split session).0
            chunks
            (ended text)
            (task_of N x x.wire_out) in
        Sealed (seal_moves (read_all chunks) x) r t
  unfolding copy_encrypt finish_reading seal_move seal_round
  seal_moves-copy_encrypt [] text x running = shut_down-Sealed [] x running
  seal_moves-copy_encrypt ([] ∷ chunks) text x running =
      shut_down-Sealed (read_all chunks) x running
  seal_moves-copy_encrypt ((b ∷ bytes) ∷ chunks) text x running =
      let (r, t) =
        send_chunk N role.add_sealed (split session).0 (b ∷ bytes) (task_of N x x.wire_out) in
      first_round (ok (b ∷ bytes)) (read_all chunks) x _ _ running (
        round-Sealed (b ∷ bytes) (read_all chunks) x
          (copy_encrypt N role.add_sealed (split session).0 chunks (ended text)) r t
          (send_chunk-IsSettled N role.add_sealed (split session).0 (b ∷ bytes)
            (task_of N x x.wire_out))
          (seal_moves-copy_encrypt chunks text))
