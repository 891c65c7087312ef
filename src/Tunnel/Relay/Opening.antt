-- ===== src/Tunnel/Relay/Opening.antt =====
-- The task that opens, while nothing else moves: its rounds make up the whole of `copy_decrypt`.
use secure_tunnel.Prelude.{
  ℕ, zero, suc, ◌≡◌, refl, sym, ap, subst, ◌∙◌, inl, inr, Option, none, some, Bool, true, false,
  length, Result-cases, Bytes, Result, ok, err,
}
use secure_tunnel.Prelude.Exec.{Exec, continue, ◌>>◌}
use secure_tunnel.Protocol.Noise.{Noise}
use secure_tunnel.Protocol.Session.{TransportSession, split}
use secure_tunnel.Tunnel.Io.{Stop, failed, waiting, exhausted, shutdown, Input}
use secure_tunnel.Tunnel.Frames.{read_record_frame}
use secure_tunnel.Tunnel.Copy.{
  Drain, on_output, on_task, deliver_record, copy_decrypt, copy_decrypt_loop,
}
use secure_tunnel.Tunnel.Copy.Posting.{IsSettled, deliver_record-IsSettled, shutdown-IsSettled}
use secure_tunnel.Tunnel.Relay.Tasks.{
  Role, opens, Progress, runs, finished, aborted, is_running, progress_after, with_value, Running,
  open_move, opened_by, opened_round, open_round, task_of, move, drain_of,
}
use secure_tunnel.Tunnel.Relay.Sealing.{stands}

module _ (N : Noise) (role : Role) (session : TransportSession) (idle : ℕ) where
  -- What the rounds have left is what a result and a state of the task say.
  pub record Opened (x : Running N) (r : Result Stop (Unit {0})) (d : Drain N) : Type 0 where
    pub heap : x.heap ≡ d.task.heap
    pub telemetry : x.telemetry ≡ d.task.telemetry
    pub activity : x.activity ≡ d.task.activity
    pub sink : x.sink ≡ d.task.output
    pub opening : x.opening ≡ stands r

  unfoldable pub open_moves : ℕ → Running N → Running N
  open_moves zero x = x
  open_moves (suc n) x = open_moves n (move N role session idle opens x)

  open_moves_idle :
      (n : ℕ) (x : Running N) → move N role session idle opens x ≡ x → open_moves n x ≡ x
  unfolding open_moves
  open_moves_idle zero x h = refl
  open_moves_idle (suc n) x h = ap (open_moves n) h ∙ open_moves_idle n x h

  ended_unmoved :
      (x : Running N) → is_running x.opening ≡ false → move N role session idle opens x ≡ x
  unfolding move
  ended_unmoved x h = go x.opening h
    where
      go : (p : Progress) → is_running p ≡ false → open_move N role (split session).1 p x ≡ x
      go runs h = absurd (cc)
      go (finished j) h = refl
      go aborted h = refl

  ended-Opened :
      (n : ℕ) (x : Running N) (r : Result Stop (Unit {0})) (d : Drain N)
      → move N role session idle opens x ≡ x
      → Opened x r d
      → Opened (open_moves n x) r d
  ended-Opened n x r d h s = subst (λ y. Opened y r d) (sym (open_moves_idle n x h)) s

  first_opening :
      (n : ℕ) (x : Running N) (r : Result Stop (Unit {0})) (d : Drain N)
      → x.opening ≡ runs
      → Opened (open_moves n (open_move N role (split session).1 runs x)) r d
      → Opened (open_moves (suc n) x) r d
  unfolding open_moves move
  first_opening n x r d running s =
      subst (λ p. Opened (open_moves n (open_move N role (split session).1 p x)) r d) (sym running)
        s

  -- What a round leaves once its result is there, before `n` more.
  settled-Opened :
      (n : ℕ) (x : Running N) (more : Bool) (r : Result Stop (Unit {0})) (d : Drain N)
      (rest : Exec (Drain N) Stop (Unit {0}))
      → IsSettled r
      → ((x' : Running N)
          → x'.opening ≡ progress_after (ok more)
          → let (r', d') = rest (drain_of N x') in Opened (open_moves n x') r' d')
      → Opened
          (open_moves n (opened_by N x (with_value more r, d)))
          (continue r (λ u. rest) d).0
          (continue r (λ u. rest) d).1
  settled-Opened n x more (ok u) d rest h later = later (opened_by N x (ok more, d)) refl
  settled-Opened n x more (err (failed e)) d rest h later =
      ended-Opened n _ _ _ (ended_unmoved _ refl)
        (record { heap = refl; telemetry = refl; activity = refl; sink = refl; opening = refl })
  settled-Opened n x more (err waiting) d rest h later = elim h [
    | inl good ↦ absurd (cc)
    | inr (e, bad) ↦ absurd (cc)
  ]
  settled-Opened n x more (err exhausted) d rest h later = elim h [
    | inl good ↦ absurd (cc)
    | inr (e, bad) ↦ absurd (cc)
  ]

  shut-Opened :
      (n : ℕ) (x : Running N) (r : Result Stop (Unit {0})) (d : Drain N)
      → IsSettled r
      → Opened (open_moves n (opened_by N x (with_value false r, d))) r d
  shut-Opened n x (ok u) d h =
      ended-Opened n _ _ _ (ended_unmoved _ refl)
        (record { heap = refl; telemetry = refl; activity = refl; sink = refl; opening = refl })
  shut-Opened n x (err (failed e)) d h =
      ended-Opened n _ _ _ (ended_unmoved _ refl)
        (record { heap = refl; telemetry = refl; activity = refl; sink = refl; opening = refl })
  shut-Opened n x (err waiting) d h = elim h [ inl good ↦ absurd (cc) | inr (e, bad) ↦ absurd (cc) ]
  shut-Opened n x (err exhausted) d h = elim h [
    | inl good ↦ absurd (cc)
    | inr (e, bad) ↦ absurd (cc)
  ]

  abbrev next : ℕ → Option Bytes → Exec (Drain N) Stop (Unit {0})
  next n none = on_task N (on_output N shutdown)
  next n (some frame) =
      on_task N (deliver_record N role.add_opened (split session).1 frame)
      >> copy_decrypt_loop N n role.add_opened (split session).1

  read-Opened :
      (n : ℕ) (x : Running N) (r : Result Stop (Option Bytes)) (i : Input)
      → x.opening ≡ runs
      → let d : Drain N = record { input = i; task = task_of N x x.sink } in
        let x' = opened_by N x (continue r (opened_round N role (split session).1) d) in
        (move N role session idle opens x ≡ x')
        → ((x'' : Running N)
            → x''.opening ≡ runs
            → let (r', d') =
                copy_decrypt_loop N n role.add_opened (split session).1 (drain_of N x'') in
              Opened (open_moves n x'') r' d')
        → Opened (open_moves n x') (continue r (next n) d).0 (continue r (next n) d).1
  read-Opened n x (err (failed e)) i running moved later =
      ended-Opened n _ _ _ (ended_unmoved _ refl)
        (record { heap = refl; telemetry = refl; activity = refl; sink = refl; opening = refl })
  read-Opened n x (err waiting) i running moved later =
      ended-Opened n x _ _ moved
        (record { heap = refl; telemetry = refl; activity = refl; sink = refl; opening = running })
  read-Opened n x (err exhausted) i running moved later =
      ended-Opened n x _ _ moved
        (record { heap = refl; telemetry = refl; activity = refl; sink = refl; opening = running })
  read-Opened n x (ok none) i running moved later =
      shut-Opened n x _ _ (shutdown-IsSettled N (task_of N x x.sink))
  read-Opened n x (ok (some frame)) i running moved later =
      settled-Opened n x true _ _ (copy_decrypt_loop N n role.add_opened (split session).1)
        (deliver_record-IsSettled N role.add_opened (split session).1 frame (task_of N x x.sink))
        later

  opened_as :
      (x : Running N)
      → x.opening ≡ runs
      → move N role session idle opens x ≡ open_move N role (split session).1 runs x
  unfolding move
  opened_as x running = ap (λ p. open_move N role (split session).1 p x) running

  loop_round :
      (n : ℕ) (d : Drain N)
      → copy_decrypt_loop N (suc n) role.add_opened (split session).1 d
        ≡ continue
            (read_record_frame d.input).0
            (next n)
            (record d { input = (read_record_frame d.input).1 })
  unfolding copy_decrypt_loop
  loop_round n d = elim (Result-cases (read_record_frame d.input).0) [
    | inr (e, bad) ↦ rw (bad, copy_decrypt_loop) refl
    | inl (none, got) ↦ rw (got, copy_decrypt_loop) refl
    | inl (some frame, got) ↦ rw (got, copy_decrypt_loop) refl
  ]

  open_moves-loop :
      (n : ℕ) (x : Running N)
      → x.opening ≡ runs
      → let (r, d) = copy_decrypt_loop N n role.add_opened (split session).1 (drain_of N x) in
        Opened (open_moves n x) r d
  unfolding copy_decrypt_loop open_moves open_move open_round
  open_moves-loop zero x running = record {
    heap = refl;
    telemetry = refl;
    activity = refl;
    sink = refl;
    opening = running;
  }
  open_moves-loop (suc n) x running =
      let (r, i) = read_record_frame x.wire_in in
      first_opening n x _ _ running (
        subst
          (λ (z : Result Stop (Unit {0}) × Drain N).
            Opened (open_moves n (open_move N role (split session).1 runs x)) z.0 z.1)
          (sym (loop_round n (drain_of N x)))
          (read-Opened n x r i running (opened_as x running) (open_moves-loop n)))

  -- The task that opens, while nothing else moves, over more rounds than there are bytes in its stream,
  -- leaves what `copy_decrypt` leaves: cells, counters, activity, writer, and its result, or it waits.
  open_moves-copy_decrypt :
      (x : Running N)
      → x.opening ≡ runs
      → let (r, d) = copy_decrypt N role.add_opened (split session).1 (drain_of N x) in
        Opened (open_moves (suc (length x.wire_in.bytes)) x) r d
  unfolding copy_decrypt
  open_moves-copy_decrypt x running = open_moves-loop (suc (length x.wire_in.bytes)) x running
