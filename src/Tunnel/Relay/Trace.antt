-- ===== src/Tunnel/Relay/Trace.antt =====
-- The loop of a running relay is the loop of Tunnel/Relay, over the events that it meets.
use secure_tunnel.Prelude.{
  ℕ, ◌≡◌, refl, ap, ◌∙◌, inl, inr, List, [], ◌∷◌, ◌++◌, Option, none, some, Bool, Bytes, Text,
  Result, ok, err,
}
use secure_tunnel.Protocol.Noise.{Noise}
use secure_tunnel.Protocol.Session.{
  TransportSession, split, TransportReceiver, TransportSender, Heap,
}
use secure_tunnel.Tunnel.Io.{Stop, failed, waiting, exhausted, Input, Output}
use secure_tunnel.Tunnel.Telemetry.{ConnectionTelemetry}
use secure_tunnel.Tunnel.Copy.{Drain}
use secure_tunnel.Tunnel.Relay.{Event, RelayState, RelayEnd, react, relay_loop, start}
use secure_tunnel.Tunnel.Relay.Ends.{Reaction-cases}
use secure_tunnel.Tunnel.Relay.Tasks.{
  Role, Move, reads, opens, sealing_panics, opening_panics, turns, Branch, Progress, runs, finished,
  aborted, Watch, loops, over, Running, ready, reacts, turn_with, keeps_activity, turn, seal_move,
  open_move, opened_by, open_round, task_of, move, moves, relaying,
}

-- The end of a loop, if it is over.
abbrev pub end_of : Watch → Option RelayEnd
end_of (loops s) = none
end_of (over end) = some end

module _ (N : Noise) (role : Role) (session : TransportSession) (idle : ℕ) where
  abbrev event_at : ℕ → Option Event → List (ℕ × Event)
  event_at now none = []
  event_at now (some event) = (now, event) ∷ []

  -- What a move brings to the loop.
  abbrev met : Move → Running N → List (ℕ × Event)
  met (reads result) x = []
  met opens x = []
  met (sealing_panics text) x = []
  met (opening_panics text) x = []
  met (turns now branch) x = event_at now (ready N role x branch)

  abbrev pub trace : List Move → Running N → List (ℕ × Event)
  trace [] x = []
  trace (m ∷ ms) x = met m x ++ trace ms (move N role session idle m x)

  seal_move-watch :
      (s : TransportSender) (result : Result Text Bytes) (p : Progress) (x : Running N)
      → (seal_move N role s result p x).watch ≡ x.watch
  unfolding seal_move
  seal_move-watch s result runs x = refl
  seal_move-watch s result (finished j) x = refl
  seal_move-watch s result aborted x = refl

  opened_by-watch :
      (x : Running N) (r : Result Stop Bool) (d : Drain N) → (opened_by N x (r, d)).watch ≡ x.watch
  opened_by-watch x (ok more) d = refl
  opened_by-watch x (err waiting) d = refl
  opened_by-watch x (err exhausted) d = refl
  opened_by-watch x (err (failed e)) d = refl

  open_move-watch :
      (r : TransportReceiver) (p : Progress) (x : Running N)
      → (open_move N role r p x).watch ≡ x.watch
  unfolding open_move open_round
  open_move-watch r runs x =
      let (result, d) =
        open_round N role r (record { input = x.wire_in; task = task_of N x x.sink }) in
      opened_by-watch x result d
  open_move-watch r (finished j) x = refl
  open_move-watch r aborted x = refl

  -- The loop, as far as the events of a state and then of others go.
  abbrev resumed : Watch → List (ℕ × Event) → Option RelayEnd
  resumed (loops s) events = relay_loop role.names idle s events
  resumed (over end) events = some end

  -- One turn of the loop takes one event.
  reacts-resumed :
      (s : RelayState) (now : ℕ) (event : Event) (x : Running N) (events : List (ℕ × Event))
      → resumed (reacts N x (react role.names idle s now event)).watch events
        ≡ relay_loop role.names idle s ((now, event) ∷ events)
  unfolding relay_loop
  reacts-resumed s now event x events =
      elim (Reaction-cases role.names idle (react role.names idle s now event)) [
        | inl (s', e) ↦ rw (e, relay_loop) refl
        | inr (end, e) ↦ rw (e, relay_loop) refl
      ]

  turn_with-resumed :
      (s : RelayState) (now : ℕ) (event : Option Event) (x : Running N) (events : List (ℕ × Event))
      → x.watch ≡ loops s
      → resumed (turn_with N role idle s now event x).watch events
        ≡ relay_loop role.names idle s (event_at now event ++ events)
  turn_with-resumed s now none x events looping = rw looping refl
  turn_with-resumed s now (some event) x events looping =
      reacts-resumed s now event (record x { activity = keeps_activity event x.activity }) events

  turn-resumed :
      (now : ℕ) (branch : Branch) (watch : Watch) (x : Running N) (events : List (ℕ × Event))
      → x.watch ≡ watch
      → resumed (turn N role idle now branch watch x).watch events
        ≡ resumed watch (event_at now (ready N role x branch) ++ events)
  unfolding turn
  turn-resumed now branch (loops s) x events looping =
      turn_with-resumed s now (ready N role x branch) x events looping
  turn-resumed now branch (over end) x events e = rw e refl

  move-resumed :
      (m : Move) (x : Running N) (events : List (ℕ × Event))
      → resumed (move N role session idle m x).watch events ≡ resumed x.watch (met m x ++ events)
  unfolding move
  move-resumed (reads result) x events =
      ap (λ w. resumed w events) (seal_move-watch (split session).0 result x.sealing x)
  move-resumed opens x events =
      ap (λ w. resumed w events) (open_move-watch (split session).1 x.opening x)
  move-resumed (sealing_panics text) x events = refl
  move-resumed (opening_panics text) x events = refl
  move-resumed (turns now branch) x events = turn-resumed now branch x.watch x events refl

  moves-resumed :
      (ms : List Move) (x : Running N)
      → end_of (moves N role session idle ms x).watch ≡ resumed x.watch (trace ms x)
  unfolding moves relay_loop
  moves-resumed [] x = stays x.watch
    where
      stays : (w : Watch) → end_of w ≡ resumed w []
      stays (loops s) = refl
      stays (over end) = refl
  moves-resumed (m ∷ ms) x =
      moves-resumed ms (move N role session idle m x)
      ∙ move-resumed m x (trace ms (move N role session idle m x))

  -- However the two tasks and the loop of a relay take turns: whether the relay has returned, and how,
  -- is what the loop makes of the events that it has met, each at its time.
  moves-relay_loop :
      (ms : List Move) (heap : Heap N) (telemetry : ConnectionTelemetry) (wire_in : Input)
      (wire_out sink : Output) (now : ℕ)
      → let x = relaying N heap telemetry wire_in wire_out sink idle now in
        end_of (moves N role session idle ms x).watch
        ≡ relay_loop role.names idle (start idle now) (trace ms x)
  moves-relay_loop ms heap telemetry wire_in wire_out sink now = moves-resumed ms _
