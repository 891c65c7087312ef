-- ===== src/Tunnel/Pair/Closing.antt =====
-- Why the relay of the client is over, in every run of the tunnel.
use secure_tunnel.Prelude.{
  ℕ, ◌≡◌, ◌≢◌, refl, ap, ◌⊎◌, inl, inr, List, [], ◌∷◌, Option, some, none, Bool, true, false, Bytes,
  Text, Result, ok, err, arith,
}
use secure_tunnel.Protocol.Noise.{Noise}
use secure_tunnel.Protocol.Session.{TransportSession, split, TransportReceiver}
use secure_tunnel.Tunnel.Io.{Stop, failed, waiting, exhausted}
use secure_tunnel.Tunnel.Relay.{
  returned, panicked, Event, closing_joined, client_tasks, RelayState, react,
}
use secure_tunnel.Tunnel.Relay.Ends.{react-ends, Reaction-cases}
use secure_tunnel.Tunnel.Copy.{Drain}
use secure_tunnel.Tunnel.Relay.Tasks.{
  Move, reads, opens, sealing_panics, opening_panics, turns, Branch, sealing_join, opening_join,
  activity_recv, idle_timer, shutdown_watch, Progress, runs, finished, aborted, abort_if, Watch,
  loops, over, Running, client_role, ready, turn_with, turn, seal_move, open_move, opened_by,
  open_round, task_of, move, panic, progress_after,
}
use secure_tunnel.Tunnel.Pair.{
  Step, at_client, at_server, carries_up, carries_down, ends_up, ends_down, breaks_up, breaks_down,
  Pair, step, steps,
}
use secure_tunnel.Tunnel.Pair.Way.{ended_well}

-- A loop that is over with a good result was ended by a task that had ended well.
abbrev pub IsClosedBy : Progress → Watch → Type 0
IsClosedBy p (loops s) = Unit {0}
IsClosedBy p (over end) = (end.result ≢ ok tt) ⊎ (ended_well p ≡ true)

module _ (N : Noise) where
  unfoldable pub IsClosed : Running N → Type 0
  IsClosed x = IsClosedBy x.opening x.watch

  IsClosedBy-runs : (p : Progress) (watch : Watch) → IsClosedBy runs watch → IsClosedBy p watch
  IsClosedBy-runs p (loops s) h = tt
  IsClosedBy-runs p (over end) (inl bad) = inl bad
  IsClosedBy-runs p (over end) (inr good) = absurd (cc)

  ready-closing :
      (x : Running N) (branch : Branch)
      → ready N client_role x branch ≡ some (closing_joined (returned (ok tt)))
      → ended_well x.opening ≡ true
  unfolding ready
  ready-closing x sealing_join h = ground arith
  ready-closing x opening_join h = ground arith
  ready-closing x activity_recv h = ground arith
  ready-closing x idle_timer h = absurd (cc)
  ready-closing x shutdown_watch h = absurd (cc)

  ended_well-abort_if :
      (b : Bool) (p : Progress) → ended_well p ≡ true → ended_well (abort_if b p) ≡ true
  ended_well-abort_if false p h = h
  ended_well-abort_if true runs h = h
  ended_well-abort_if true (finished j) h = h
  ended_well-abort_if true aborted h = h

  turn_with-IsClosed :
      (idle now : ℕ) (s : RelayState) (event : Option Event) (x : Running N)
      → ((event ≡ some (closing_joined (returned (ok tt)))) → ended_well x.opening ≡ true)
      → x.watch ≡ loops s
      → IsClosed (turn_with N client_role idle s now event x)
  unfolding IsClosed
  turn_with-IsClosed idle now s none x closing looping = rw looping tt
  turn_with-IsClosed idle now s (some event) x closing looping =
      elim (Reaction-cases client_tasks idle (react client_tasks idle s now event)) [
        | inl (s', e) ↦ rw e tt
        | inr (end, e) ↦
            let why = (react-ends client_tasks idle s now event end e).0 in
            rw e (elim why [
              | inr bad ↦ inl bad
              | inl good ↦ inr (ended_well-abort_if end.aborted x.opening (closing (ap some good)))
            ])
      ]

  turn-IsClosed :
      (idle now : ℕ) (branch : Branch) (watch : Watch) (x : Running N)
      → x.watch ≡ watch
      → IsClosed x
      → IsClosed (turn N client_role idle now branch watch x)
  unfolding turn
  turn-IsClosed idle now branch (loops s) x looping h =
      turn_with-IsClosed idle now s _ x (ready-closing x branch) looping
  turn-IsClosed idle now branch (over end) x e h = h

  seal_move-IsClosed :
      (s : TransportSession) (result : Result Text Bytes) (p : Progress) (x : Running N)
      → IsClosed x
      → IsClosed (seal_move N client_role (split s).0 result p x)
  unfolding seal_move IsClosed
  seal_move-IsClosed s result runs x h = h
  seal_move-IsClosed s result (finished j) x h = h
  seal_move-IsClosed s result aborted x h = h

  opened_by-IsClosed :
      (x : Running N) (r : Result Stop Bool) (d : Drain N)
      → x.opening ≡ runs
      → IsClosed x
      → IsClosed (opened_by N x (r, d))
  unfolding IsClosed
  opened_by-IsClosed x (ok more) d e h =
      IsClosedBy-runs (progress_after (ok more)) x.watch (rw e at h)
  opened_by-IsClosed x (err waiting) d e h = h
  opened_by-IsClosed x (err exhausted) d e h = h
  opened_by-IsClosed x (err (failed error)) d e h =
      IsClosedBy-runs (finished (returned (err error))) x.watch (rw e at h)

  open_move-IsClosed :
      (r : TransportReceiver) (p : Progress) (x : Running N)
      → x.opening ≡ p
      → IsClosed x
      → IsClosed (open_move N client_role r p x)
  unfolding open_move open_round
  open_move-IsClosed r runs x e h =
      let (result, d) =
        open_round N client_role r (record { input = x.wire_in; task = task_of N x x.sink }) in
      opened_by-IsClosed x result d e h
  open_move-IsClosed r (finished j) x e h = h
  open_move-IsClosed r aborted x e h = h

  panic-IsClosedBy :
      (text : Text) (p : Progress) (watch : Watch)
      → IsClosedBy p watch
      → IsClosedBy (panic text p) watch
  panic-IsClosedBy text runs watch h = IsClosedBy-runs (finished (panicked text)) watch h
  panic-IsClosedBy text (finished j) watch h = h
  panic-IsClosedBy text aborted watch h = h

  move-IsClosed :
      (s : TransportSession) (idle : ℕ) (next : Move) (x : Running N)
      → IsClosed x
      → IsClosed (move N client_role s idle next x)
  unfolding move IsClosed
  move-IsClosed s idle (reads result) x h = seal_move-IsClosed s result x.sealing x h
  move-IsClosed s idle opens x h = open_move-IsClosed (split s).1 x.opening x refl h
  move-IsClosed s idle (sealing_panics text) x h = h
  move-IsClosed s idle (opening_panics text) x h = panic-IsClosedBy text x.opening x.watch h
  move-IsClosed s idle (turns now branch) x h = turn-IsClosed idle now branch x.watch x refl h

  pub steps-IsClosed :
      (c s : TransportSession) (idle idle' : ℕ) (ts : List Step) (p : Pair N)
      → IsClosed p.client
      → IsClosed (steps N c s idle idle' ts p).client
  unfolding steps step IsClosed
  steps-IsClosed c s idle idle' [] p h = h
  steps-IsClosed c s idle idle' (at_client next ∷ ts) p h =
      steps-IsClosed c s idle idle' ts _ (move-IsClosed c idle next p.client h)
  steps-IsClosed c s idle idle' (at_server next ∷ ts) p h = steps-IsClosed c s idle idle' ts _ h
  steps-IsClosed c s idle idle' (carries_up n ∷ ts) p h = steps-IsClosed c s idle idle' ts _ h
  steps-IsClosed c s idle idle' (carries_down n ∷ ts) p h = steps-IsClosed c s idle idle' ts _ h
  steps-IsClosed c s idle idle' (ends_up text ∷ ts) p h = steps-IsClosed c s idle idle' ts _ h
  steps-IsClosed c s idle idle' (ends_down text ∷ ts) p h = steps-IsClosed c s idle idle' ts _ h
  steps-IsClosed c s idle idle' (breaks_up text ∷ ts) p h = steps-IsClosed c s idle idle' ts _ h
  steps-IsClosed c s idle idle' (breaks_down text ∷ ts) p h = steps-IsClosed c s idle idle' ts _ h
