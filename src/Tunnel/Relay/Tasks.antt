-- ===== src/Tunnel/Relay/Tasks.antt =====
-- `relay` of crates/secure-tunnel-client/src/main.rs and crates/secure-tunnel-server/src/main.rs as it
-- runs: the two copying tasks that it spawns and the loop that watches them, one move at a time and in
-- any order.  The tasks share the cells of the session, the counters and the activity channel.  A
-- task moves by whole rounds of its loop, so an abort falls between two rounds.
use secure_tunnel.Prelude.{
  ℕ, List, [], ◌∷◌, ◌++◌, Option, some, none, Bool, true, false, not, ◌||◌, Text, Bytes, Result, ok,
  err,
}
use secure_tunnel.Prelude.Exec.{Exec, raise, ◌>>=◌}
use secure_tunnel.Protocol.Noise.{Noise}
use secure_tunnel.Protocol.Session.{
  TransportSession, split, TransportSender, TransportReceiver, Heap,
}
use secure_tunnel.Tunnel.Io.{Stop, failed, waiting, exhausted, anyhow, Input, Output, shutdown}
use secure_tunnel.Tunnel.Frames.{read_record_frame}
use secure_tunnel.Tunnel.Telemetry.{ConnectionTelemetry}
use secure_tunnel.Tunnel.Copy.{
  Task, Drain, on_output, on_input, on_task, send_chunk, deliver_record,
}
use secure_tunnel.Tunnel.Relay.{
  returned, Event, timer_fired, shutdown_changed, RelayState, Reaction, goes_on, ends, react, start,
}
pub use secure_tunnel.Tunnel.Relay.Moves.{
  Role, client_role, server_role, Progress, Watch, Branch, Move, is_running, ready_join,
  progress_after, abort, panic, keeps_activity, read_bytes, abort_if, joins_as, join_event,
  recv_event, with_value, yielding, runs, finished, aborted, loops, over, sealing_join,
  opening_join, activity_recv, idle_timer, shutdown_watch, reads, opens, sealing_panics,
  opening_panics, turns,
}

module _ (N : Noise) where
  -- One side: the session's cells, the counters, the channel's one place; the plaintext that has been
  -- read, the two writers, the encrypted stream as far as it has arrived; the tasks and the loop.
  pub record Running : Type 0 where
    pub heap : Heap N
    pub telemetry : ConnectionTelemetry
    pub activity : Bool
    pub source : Bytes
    pub wire_out : Output
    pub wire_in : Input
    pub sink : Output
    pub sealing : Progress
    pub opening : Progress
    pub watch : Watch

  abbrev pub task_of : Running → Output → Task N
  task_of x output = record {
    heap = x.heap;
    telemetry = x.telemetry;
    activity = x.activity;
    output = output;
  }

  abbrev pub drain_of : Running → Drain N
  drain_of x = record { input = x.wire_in; task = task_of x x.sink }

  -- A round of `copy_encrypt`, and whether the loop goes on.
  unfoldable pub seal_round : Role → TransportSender → Result Text Bytes → Exec (Task N) Stop Bool
  seal_round role sender (err text) = raise (failed (anyhow text))
  seal_round role sender (ok []) = yielding false (on_output N shutdown)
  seal_round role sender (ok (b ∷ bytes)) =
      yielding true (send_chunk N role.add_sealed sender (b ∷ bytes))

  abbrev pub opened_round : Role → TransportReceiver → Option Bytes → Exec (Drain N) Stop Bool
  opened_round role receiver none = yielding false (on_task N (on_output N shutdown))
  opened_round role receiver (some frame) =
      yielding true (on_task N (deliver_record N role.add_opened receiver frame))

  -- A round of `copy_decrypt`.
  unfoldable pub open_round : Role → TransportReceiver → Exec (Drain N) Stop Bool
  open_round role receiver = on_input N read_record_frame >>= opened_round role receiver

  abbrev pub sealed_by : Running → Bytes → Result Stop Bool × Task N → Running
  sealed_by x bytes (result, t) = record x {
    heap = t.heap;
    telemetry = t.telemetry;
    activity = t.activity;
    wire_out = t.output;
    source = x.source ++ bytes;
    sealing = progress_after result;
  }

  -- Input that has not come yet is waited for: what has arrived stays there.
  abbrev pub opened_by : Running → Result Stop Bool × Drain N → Running
  opened_by x (ok more, d) = record x {
    heap = d.task.heap;
    telemetry = d.task.telemetry;
    activity = d.task.activity;
    wire_in = d.input;
    sink = d.task.output;
    opening = progress_after (ok more);
  }
  opened_by x (err waiting, d) = x
  opened_by x (err exhausted, d) = x
  opened_by x (err (failed e), d) = record x {
    heap = d.task.heap;
    telemetry = d.task.telemetry;
    activity = d.task.activity;
    wire_in = d.input;
    sink = d.task.output;
    opening = finished (returned (err e));
  }

  unfoldable pub seal_move :
      Role → TransportSender → Result Text Bytes → Progress → Running → Running
  unfolding seal_round
  seal_move role sender result runs x =
      sealed_by x (read_bytes result) (seal_round role sender result (task_of x x.wire_out))
  seal_move role sender result (finished j) x = x
  seal_move role sender result aborted x = x

  unfoldable pub open_move : Role → TransportReceiver → Progress → Running → Running
  unfolding open_round
  open_move role receiver runs x = opened_by x (open_round role receiver (drain_of x))
  open_move role receiver (finished j) x = x
  open_move role receiver aborted x = x

  -- The event of a branch that is ready.
  unfoldable pub ready : Role → Running → Branch → Option Event
  ready role x sealing_join = join_event role.sealing_closes (ready_join x.sealing)
  ready role x opening_join = join_event (not role.sealing_closes) (ready_join x.opening)
  ready role x activity_recv = recv_event x.activity (is_running x.sealing || is_running x.opening)
  ready role x idle_timer = some timer_fired
  ready role x shutdown_watch = some shutdown_changed

  -- An end of the loop aborts the two tasks, or drops their handles, and then they run on.
  abbrev pub reacts : Running → Reaction → Running
  reacts x (goes_on s) = record x { watch = loops s }
  reacts x (ends end) = record x {
    watch = over end;
    sealing = abort_if end.aborted x.sealing;
    opening = abort_if end.aborted x.opening;
  }

  abbrev pub turn_with : Role → ℕ → RelayState → ℕ → Option Event → Running → Running
  turn_with role idle s now none x = x
  turn_with role idle s now (some event) x =
      reacts (record x { activity = keeps_activity event x.activity })
        (react role.names idle s now event)

  unfoldable pub turn : Role → ℕ → ℕ → Branch → Watch → Running → Running
  turn role idle now branch (loops s) x = turn_with role idle s now (ready role x branch) x
  turn role idle now branch (over end) x = x

  unfoldable pub move : Role → TransportSession → ℕ → Move → Running → Running
  unfolding seal_move open_move turn ready
  move role session idle (reads result) x = seal_move role (split session).0 result x.sealing x
  move role session idle opens x = open_move role (split session).1 x.opening x
  move role session idle (sealing_panics text) x = record x { sealing = panic text x.sealing }
  move role session idle (opening_panics text) x = record x { opening = panic text x.opening }
  move role session idle (turns now branch) x = turn role idle now branch x.watch x

  -- When `relay` has set everything up.
  abbrev pub relaying : Heap N → ConnectionTelemetry → Input → Output → Output → ℕ → ℕ → Running
  relaying heap telemetry wire_in wire_out sink idle now = record {
    heap = heap;
    telemetry = telemetry;
    activity = false;
    source = [];
    wire_out = wire_out;
    wire_in = wire_in;
    sink = sink;
    sealing = runs;
    opening = runs;
    watch = loops (start idle now);
  }

  -- One side alone, over a sequence of moves.
  unfoldable pub moves : Role → TransportSession → ℕ → List Move → Running → Running
  moves role session idle [] x = x
  moves role session idle (m ∷ ms) x = moves role session idle ms (move role session idle m x)
