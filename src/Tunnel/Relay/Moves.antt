-- ===== src/Tunnel/Relay/Moves.antt =====
-- The parts of a running relay, of crates/secure-tunnel-client/src/main.rs and
-- crates/secure-tunnel-server/src/main.rs: what its tasks and its loop can be, and what can happen next.
use secure_tunnel.Prelude.{
  ℕ, [], Option, some, none, Bool, true, false, Text, Bytes, Result, ok, err,
}
use secure_tunnel.Prelude.Exec.{Exec}
use secure_tunnel.Tunnel.Io.{Stop, failed, waiting, exhausted}
use secure_tunnel.Tunnel.Telemetry.{ConnectionTelemetry}
use secure_tunnel.Tunnel.Copy.{add_client_to_server, add_server_to_client}
use secure_tunnel.Tunnel.Relay.{
  Joined, returned, panicked, Event, guarded_joined, closing_joined, activity_received, timer_fired,
  shutdown_changed, TaskNames, client_tasks, server_tasks, RelayState, RelayEnd,
}

-- What differs between the two programs: the texts for panics, the counters, and which task is which.
pub record Role : Type 0 where
  pub names : TaskNames
  pub add_sealed : ℕ → ConnectionTelemetry → ConnectionTelemetry
  pub add_opened : ℕ → ConnectionTelemetry → ConnectionTelemetry
  pub sealing_closes : Bool

-- The client's uplink seals and is guarded, its downlink opens and closes the relay.
abbrev pub client_role : Role
client_role = record {
  names = client_tasks;
  add_sealed = add_client_to_server;
  add_opened = add_server_to_client;
  sealing_closes = false;
}

-- The server's inbound task opens and is guarded, its outbound task seals and closes the relay.
abbrev pub server_role : Role
server_role = record {
  names = server_tasks;
  add_sealed = add_server_to_client;
  add_opened = add_client_to_server;
  sealing_closes = true;
}

pub data Progress : Type 0 where
  runs : Progress
  finished : Joined → Progress
  aborted : Progress

pub data Watch : Type 0 where
  loops : RelayState → Watch
  over : RelayEnd → Watch

-- The branches of the `select!`, as the runtime picks them.
pub data Branch : Type 0 where
  sealing_join : Branch
  opening_join : Branch
  activity_recv : Branch
  idle_timer : Branch
  shutdown_watch : Branch

-- What happens next on one side.  A call of `read` returns bytes or an error; a round of the other task
-- reads what has arrived.
pub data Move : Type 0 where
  reads : Result Text Bytes → Move
  opens : Move
  sealing_panics : Text → Move
  opening_panics : Text → Move
  turns : ℕ → Branch → Move

abbrev pub is_running : Progress → Bool
is_running runs = true
is_running (finished j) = false
is_running aborted = false

abbrev pub ready_join : Progress → Option Joined
ready_join runs = none
ready_join (finished j) = some j
ready_join aborted = none

-- What a round leaves of its task: a round that waits for input is tried again.
abbrev pub progress_after : Result Stop Bool → Progress
progress_after (ok true) = runs
progress_after (ok false) = finished (returned (ok tt))
progress_after (err (failed e)) = finished (returned (err e))
progress_after (err waiting) = runs
progress_after (err exhausted) = runs

abbrev pub abort : Progress → Progress
abort runs = aborted
abort (finished j) = finished j
abort aborted = aborted

abbrev pub panic : Text → Progress → Progress
panic text runs = finished (panicked text)
panic text (finished j) = finished j
panic text aborted = aborted

abbrev pub keeps_activity : Event → Bool → Bool
keeps_activity (activity_received b) busy = false
keeps_activity (guarded_joined j) busy = busy
keeps_activity (closing_joined j) busy = busy
keeps_activity timer_fired busy = busy
keeps_activity shutdown_changed busy = busy

abbrev pub read_bytes : Result Text Bytes → Bytes
read_bytes (ok bytes) = bytes
read_bytes (err text) = []

abbrev pub abort_if : Bool → Progress → Progress
abort_if true p = abort p
abort_if false p = p

abbrev pub joins_as : Bool → Joined → Event
joins_as true j = closing_joined j
joins_as false j = guarded_joined j

abbrev pub join_event : Bool → Option Joined → Option Event
join_event closes none = none
join_event closes (some j) = some (joins_as closes j)

-- `recv` yields nothing once both senders are dropped, with the tasks that hold them.
abbrev pub recv_event : Bool → Bool → Option Event
recv_event true busy = some (activity_received true)
recv_event false true = none
recv_event false false = some (activity_received false)

abbrev pub with_value : Bool → Result Stop (Unit {0}) → Result Stop Bool
with_value more (ok u) = ok more
with_value more (err e) = err e

-- A round that ends without an error says whether the loop goes on.
abbrev pub yielding : {S : Type 0} → Bool → Exec S Stop (Unit {0}) → Exec S Stop Bool
yielding more m s = (with_value more (m s).0, (m s).1)
