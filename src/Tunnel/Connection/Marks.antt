-- ===== src/Tunnel/Connection/Marks.antt =====
-- A relay leaves the mark of its connection's handshake as it is.
use secure_tunnel.Prelude.{
  ℕ, ◌≡◌, refl, subst, List, [], ◌∷◌, Option, none, some, Bool, length, Bytes, Text, Result, ok,
  err, Result-cases, inl, inr, arith,
}
use secure_tunnel.Protocol.Noise.{Noise}
use secure_tunnel.Protocol.Session.{
  TransportSession, TransportSender, TransportReceiver, split, receiver_decrypt_record,
}
use secure_tunnel.Tunnel.Io.{Stop, failed, waiting, exhausted}
use secure_tunnel.Tunnel.Telemetry.{ConnectionTelemetry}
use secure_tunnel.Tunnel.Frames.{read_record_frame}
use secure_tunnel.Tunnel.Copy.{
  Task, Drain, send_chunk, deliver_record, add_client_to_server, add_server_to_client,
}
use secure_tunnel.Tunnel.Copy.Delivery.{Counter}
use secure_tunnel.Tunnel.Relay.{Event, RelayState, Reaction, goes_on, ends, react}
use secure_tunnel.Tunnel.Relay.Tasks.{
  Role, Move, reads, opens, sealing_panics, opening_panics, turns, Branch, Progress, runs, finished,
  aborted, Watch, loops, over, Running, ready, reacts, keeps_activity, turn_with, turn, seal_round,
  seal_move, open_round, open_move, opened_by, drain_of, task_of, move,
}
use secure_tunnel.Tunnel.Connection.{Connection, relays, closed, crashed, relay_through, go_on}

-- A counter of bytes leaves the rest of the telemetry alone.
abbrev pub LeavesMark : Counter → Type 0
LeavesMark add =
    (n : ℕ) (t : ConnectionTelemetry) → (add n t).handshake_succeeded ≡ t.handshake_succeeded

pub add_client_to_server-LeavesMark : LeavesMark add_client_to_server
unfolding add_client_to_server
add_client_to_server-LeavesMark n t = refl

pub add_server_to_client-LeavesMark : LeavesMark add_server_to_client
unfolding add_server_to_client
add_server_to_client-LeavesMark n t = refl

module _ (N : Noise) where
  abbrev mark : Task N → Bool
  mark t = t.telemetry.handshake_succeeded

  send_chunk-mark :
      (add : Counter) (s : TransportSender) (chunk : Bytes) (t : Task N)
      → LeavesMark add
      → mark (send_chunk N add s chunk t).1 ≡ mark t
  unfolding send_chunk
  send_chunk-mark add s chunk t keeps = ground (arith, keeps (length chunk) t.telemetry)

  deliver_record-mark :
      (add : Counter) (r : TransportReceiver) (frame : Bytes) (t : Task N)
      → LeavesMark add
      → mark (deliver_record N add r frame t).1 ≡ mark t
  unfolding deliver_record
  deliver_record-mark add r frame t keeps =
      elim (Result-cases (receiver_decrypt_record N r frame t.heap).0) [
        | inr (e, bad) ↦ rw (bad, deliver_record) refl
        | inl (plain, opened) ↦ ground (arith, keeps (length plain) t.telemetry)
      ]

  -- The connection has not crashed, and if it is closed then with this mark.
  abbrev pub ClosesWith : Bool → Connection N → Type 0
  ClosesWith b (relays x) = Unit {0}
  ClosesWith b (closed telemetry result) = telemetry.handshake_succeeded ≡ b
  ClosesWith b crashed = ⊥

  module _ (role : Role) (sealed_keeps : LeavesMark role.add_sealed)
      (opened_keeps : LeavesMark role.add_opened) where
    abbrev marked : Running N → Bool
    marked x = x.telemetry.handshake_succeeded

    seal_move-mark :
        (s : TransportSender) (result : Result Text Bytes) (p : Progress) (x : Running N)
        → marked (seal_move N role s result p x) ≡ marked x
    unfolding seal_move seal_round
    seal_move-mark s (err text) runs x = refl
    seal_move-mark s (ok []) runs x = refl
    seal_move-mark s (ok (b ∷ bytes)) runs x =
        send_chunk-mark role.add_sealed s (b ∷ bytes) (task_of N x x.wire_out) sealed_keeps
    seal_move-mark s result (finished j) x = refl
    seal_move-mark s result aborted x = refl

    opened_by-mark :
        (x : Running N) (r : Result Stop Bool) (d : Drain N)
        → mark d.task ≡ marked x
        → marked (opened_by N x (r, d)) ≡ marked x
    opened_by-mark x (ok more) d h = h
    opened_by-mark x (err waiting) d h = refl
    opened_by-mark x (err exhausted) d h = refl
    opened_by-mark x (err (failed e)) d h = h

    open_round-mark :
        (r : TransportReceiver) (d : Drain N) → mark (open_round N role r d).1.task ≡ mark d.task
    unfolding open_round
    open_round-mark r d = elim (Result-cases (read_record_frame d.input).0) [
      | inr (e, bad) ↦ rw (bad, open_round) refl
      | inl (none, got) ↦ rw (got, open_round) refl
      | inl (some frame, got) ↦
          rw (got, open_round) (deliver_record-mark role.add_opened r frame d.task opened_keeps)
    ]

    open_move-mark :
        (r : TransportReceiver) (p : Progress) (x : Running N)
        → marked (open_move N role r p x) ≡ marked x
    unfolding open_move
    open_move-mark r runs x =
        let (result, d) = open_round N role r (drain_of N x) in
        opened_by-mark x result d (open_round-mark r (drain_of N x))
    open_move-mark r (finished j) x = refl
    open_move-mark r aborted x = refl

    reacts-mark : (x : Running N) (r : Reaction) → marked (reacts N x r) ≡ marked x
    reacts-mark x (goes_on s) = refl
    reacts-mark x (ends end) = refl

    turn_with-mark :
        (idle : ℕ) (s : RelayState) (now : ℕ) (event : Option Event) (x : Running N)
        → marked (turn_with N role idle s now event x) ≡ marked x
    turn_with-mark idle s now none x = refl
    turn_with-mark idle s now (some event) x =
        reacts-mark (record x { activity = keeps_activity event x.activity })
          (react role.names idle s now event)

    turn-mark :
        (idle now : ℕ) (branch : Branch) (watch : Watch) (x : Running N)
        → marked (turn N role idle now branch watch x) ≡ marked x
    unfolding turn
    turn-mark idle now branch (loops s) x = turn_with-mark idle s now (ready N role x branch) x
    turn-mark idle now branch (over end) x = refl

    move-mark :
        (session : TransportSession) (idle : ℕ) (m : Move) (x : Running N)
        → marked (move N role session idle m x) ≡ marked x
    unfolding move
    move-mark session idle (reads result) x = seal_move-mark (split session).0 result x.sealing x
    move-mark session idle opens x = open_move-mark (split session).1 x.opening x
    move-mark session idle (sealing_panics text) x = refl
    move-mark session idle (opening_panics text) x = refl
    move-mark session idle (turns now branch) x = turn-mark idle now branch x.watch x

    go_on-mark :
        (b : Bool) (w : Watch) (x : Running N) (rest : Connection N)
        → marked x ≡ b
        → ClosesWith b rest
        → ClosesWith b (go_on N w x rest)
    go_on-mark b (loops s) x rest here later = later
    go_on-mark b (over end) x rest here later = here

    pub relay_through-mark :
        (session : TransportSession) (idle : ℕ) (ms : List Move) (x : Running N)
        → ClosesWith (marked x) (relay_through N role session idle ms x)
    unfolding relay_through
    relay_through-mark session idle [] x = tt
    relay_through-mark session idle (m ∷ ms) x =
        let x' = move N role session idle m x in
        let kept = move-mark session idle m x in
        go_on-mark (marked x) x'.watch x' (relay_through N role session idle ms x') kept (
          subst (λ b. ClosesWith b (relay_through N role session idle ms x')) kept
            (relay_through-mark session idle ms x'))
