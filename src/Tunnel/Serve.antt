-- ===== src/Tunnel/Serve.antt =====
-- The loop of `serve`, the same in crates/secure-tunnel-client/src/main.rs and
-- crates/secure-tunnel-server/src/main.rs: accepting connections up to a limit, and draining them on
-- a signal.
pub mod Limit
pub mod Shutdown
use secure_tunnel.Prelude.{
  ℕ, zero, suc, ◌+◌, List, [], ◌∷◌, Option, some, none, Bool, true, false, Text, Result, ok, err,
}
use secure_tunnel.Tunnel.Io.{Error, anyhow}
use secure_tunnel.Tunnel.Telemetry.{ConnectionTelemetry}
use secure_tunnel.Tunnel.Metrics.{TunnelMetrics, default, connection_opened, finish_connection}

pub data Phase : Type 0 where
  accepting : Phase
  draining : Phase
  stopped : Result Error (Unit {0}) → Phase

-- `permits` are those of the semaphore that are free; `running` are the ids of the session tasks that
-- run; `refused` counts the connections that found no permit.
pub record Serving : Type 0 where
  pub phase : Phase
  pub permits : ℕ
  pub running : List ℕ
  pub refused : ℕ
  pub panics : ℕ
  pub metrics : TunnelMetrics

-- What the process meets.  A session task ends with the result of its handler and its counters, at
-- its place among the running tasks; or it panics, which drops its permit but skips
-- `finish_connection`.
pub data Event : Type 0 where
  signalled : Result Error (Unit {0}) → Event
  accepted : Result Text (Unit {0}) → ℕ → Event
  session_ended : ℕ → ConnectionTelemetry → Result Error (Unit {0}) → ℕ → Event
  session_panicked : ℕ → Event

abbrev pub remove_at : ℕ → List ℕ → Option (List ℕ)
remove_at i [] = none
remove_at zero (x ∷ xs) = some xs
remove_at (suc i) (x ∷ xs) = elim (remove_at i xs) [ none ↦ none | some ys ↦ some (x ∷ ys) ]

abbrev pub stop_if_none : List ℕ → Serving → Serving
stop_if_none [] s = record s { phase = stopped (ok tt) }
stop_if_none (x ∷ xs) s = s

-- After the signal the loop only joins tasks, and `serve` returns when none is left.
abbrev pub drained : Serving → Phase → Serving
drained s accepting = s
drained s (stopped r) = s
drained s draining = stop_if_none s.running s

-- `try_acquire_owned`, and what follows on a permit.
pub accept : Serving → ℕ → ℕ → Serving
accept s zero now = record s { refused = s.refused + 1 }
accept s (suc free) now =
    let (telemetry, metrics') = connection_opened s.metrics now in
    record s { permits = free; running = telemetry.id ∷ s.running; metrics = metrics' }

-- A returned error drops the tasks, which aborts them.
abbrev fail_with : Serving → Error → Serving
fail_with s e = record s { phase = stopped (err e); running = [] }

pub on_accept : Phase → Result Text (Unit {0}) → ℕ → Serving → Serving
unfolding accept
on_accept accepting (ok u) now s = accept s s.permits now
on_accept accepting (err text) now s = fail_with s (anyhow text)
on_accept draining result now s = s
on_accept (stopped r) result now s = s

pub on_signal : Phase → Result Error (Unit {0}) → Serving → Serving
on_signal accepting (ok u) s = drained (record s { phase = draining }) draining
on_signal accepting (err e) s = fail_with s e
on_signal draining result s = s
on_signal (stopped r) result s = s

pub step : Event → Serving → Serving
unfolding on_accept on_signal
step (signalled result) s = on_signal s.phase result s
step (accepted result now) s = on_accept s.phase result now s
step (session_ended i telemetry result now) s = elim (remove_at i s.running) [
  | none ↦ s
  | some rest ↦
      drained
        (record s {
          running = rest;
          permits = s.permits + 1;
          metrics = (finish_connection s.metrics telemetry result now).0;
        })
        s.phase
]
step (session_panicked i) s = elim (remove_at i s.running) [
  | none ↦ s
  | some rest ↦
      drained (record s { running = rest; permits = s.permits + 1; panics = s.panics + 1 }) s.phase
]

pub serve_loop : List Event → Serving → Serving
serve_loop [] s = s
serve_loop (e ∷ es) s = serve_loop es (step e s)

-- The state when the listener is bound, for a limit of connections.
unfoldable pub serving : ℕ → Serving
serving max_connections = record {
  phase = accepting;
  permits = max_connections;
  running = [];
  refused = 0;
  panics = 0;
  metrics = default;
}
