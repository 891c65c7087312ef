-- ===== src/Examples/Process.antt =====
-- Concrete histories of the relay, the accept loop and the counters.
use secure_tunnel.Prelude.{
  ℕ, ◌+◌, ◌≤◌, ◌≡◌, ◌≢◌, ◌↔◌, ◌⊎◌, refl, List, [], ◌∷◌, some, true, false, codes, ok, err, arith,
}
use secure_tunnel.Tunnel.Io.{anyhow}
use secure_tunnel.Tunnel.Close.{shutdown, from_error, from_message}
use secure_tunnel.Tunnel.Metrics.{default, new_telemetry}
use secure_tunnel.Tunnel.Metrics.Balance.{
  opens, closes, after_events, tally, no_events, IsBalanced, metrics_balance,
}
use secure_tunnel.Tunnel.Relay.{
  Event, activity_received, timer_fired, closing_joined, returned, RelayEnd, goes_on, ends,
  client_tasks, react, relay_loop, start,
}
use secure_tunnel.Tunnel.Relay.Ends.{
  EndedBy, IsPanic, IsQuietAt, turns, stays, relay_end, relay_idle,
}
use secure_tunnel.Tunnel.Serve.{
  accepted, signalled, session_ended, session_panicked, Serving, serving, serve_loop, stopped,
}
use secure_tunnel.Tunnel.Serve.Limit.{IsWithin, serve_loop-IsWithin}
use secure_tunnel.Tunnel.Serve.Shutdown.{shutdown_drains}

abbrev timed_out : RelayEnd
timed_out = record { result = err (anyhow (codes "idle timeout")); aborted = true }

abbrev quiet_events : List (ℕ × Event)
quiet_events = (3, activity_received true) ∷ (13, timer_fired) ∷ []

quiet-ends : relay_loop client_tasks 10 (start 10 0) quiet_events ≡ some timed_out
unfolding relay_loop react
quiet-ends = refl

relay_end_example :
    (by : EndedBy client_tasks 10 (start 10 0) quiet_events timed_out) × ((by.event
        ≡ closing_joined (returned (ok tt)))
      ⊎ (timed_out.result ≢ ok tt))
    × ((true ≡ false) ↔ IsPanic client_tasks 10 by.event)
relay_end_example = relay_end client_tasks 10 (start 10 0) quiet_events timed_out quiet-ends

active :
    react client_tasks 10 (start 10 0) 3 (activity_received true)
    ≡ goes_on (record { deadline = 13; guarded_complete = false })
unfolding react
active = refl

fired :
    react client_tasks 10 (record { deadline = 13; guarded_complete = false }) 13 timer_fired
    ≡ ends timed_out
unfolding react
fired = refl

abbrev quiet_ended : EndedBy client_tasks 10 (start 10 0) quiet_events timed_out
quiet_ended = record {
  before = (3, activity_received true) ∷ [];
  now = 13;
  event = timer_fired;
  after = [];
  state = record { deadline = 13; guarded_complete = false };
  split = refl;
  survives = turns active stays;
  last = fired;
}

relay_idle_example :
    (0 + 10 ≤ 13)
    × IsQuietAt client_tasks 10 13 ((3, activity_received true) ∷ [])
    × (timed_out.result ≡ err (anyhow (codes "idle timeout")))
relay_idle_example =
    relay_idle client_tasks 10 0 quiet_events timed_out (omega arith, (omega arith, tt)) quiet_ended
      refl

metrics_balance_example :
    IsBalanced
      (after_events (opens 5 ∷ closes (new_telemetry 1 5) shutdown 7 ∷ []) default)
      (tally (opens 5 ∷ closes (new_telemetry 1 5) shutdown 7 ∷ []) no_events)
metrics_balance_example =
    metrics_balance (opens 5 ∷ closes (new_telemetry 1 5) shutdown 7 ∷ [])
      (omega arith, (omega arith, tt))

serve_loop-IsWithin_example :
    IsWithin 1
      (serve_loop (accepted (ok tt) 3 ∷ accepted (ok tt) 4 ∷ session_panicked 0 ∷ []) (serving 1))
serve_loop-IsWithin_example =
    serve_loop-IsWithin 1 (accepted (ok tt) 3 ∷ accepted (ok tt) 4 ∷ session_panicked 0 ∷ [])

abbrev two_running : Serving
two_running = record (serving 2) { running = 2 ∷ 1 ∷ []; permits = 0 }

shutdown_drains_example :
    (serve_loop
      (signalled (ok tt)
        ∷ accepted (ok tt) 8
        ∷ session_ended 1 (new_telemetry 1 5) (ok tt) 9
        ∷ session_panicked 0
        ∷ [])
      two_running).phase
    ≡ stopped (ok tt)
unfolding serving
shutdown_drains_example =
    shutdown_drains two_running
      (accepted (ok tt) 8 ∷ session_ended 1 (new_telemetry 1 5) (ok tt) 9 ∷ session_panicked 0 ∷ [])
      refl (omega arith, (omega arith, refl))

requested : from_error (anyhow (codes "shutdown requested")) ≡ shutdown
unfolding from_error from_message
requested = refl
