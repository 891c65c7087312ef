-- ===== src/Tunnel/Relay.antt =====
-- The `select!` loop of `relay`.  In crates/secure-tunnel-client/src/main.rs the guarded task is the
-- uplink and the closing task the downlink, in crates/secure-tunnel-server/src/main.rs they are the
-- inbound and the outbound task; else the loops are the same.
pub mod Ends
pub mod Moves
pub mod Tasks
pub mod Trace
pub mod Sealing
pub mod Opening
use secure_tunnel.Prelude.{
  ℕ, ◌+◌, List, [], ◌∷◌, Option, some, none, Bool, true, false, leb, if◌then◌else◌, Text, codes,
  Result, ok, err,
}
use secure_tunnel.Tunnel.Io.{Error, anyhow}

-- What a task's `JoinHandle` yields.
pub data Joined : Type 0 where
  returned : Result Error (Unit {0}) → Joined
  panicked : Text → Joined

-- What the loop can be woken by; `recv` yields nothing once all senders are gone.
pub data Event : Type 0 where
  guarded_joined : Joined → Event
  closing_joined : Joined → Event
  activity_received : Bool → Event
  timer_fired : Event
  shutdown_changed : Event

-- The texts with which a panic of the one or of the other task is reported.
pub record TaskNames : Type 0 where
  pub guarded : Text
  pub closing : Text

abbrev pub client_tasks : TaskNames
client_tasks = record {
  guarded = codes "uplink task panicked";
  closing = codes "downlink task panicked";
}

abbrev pub server_tasks : TaskNames
server_tasks = record {
  guarded = codes "inbound task panicked";
  closing = codes "outbound task panicked";
}

pub record RelayState : Type 0 where
  pub deadline : ℕ
  pub guarded_complete : Bool

-- How `relay` returns, and whether it has aborted the two tasks: the `?` behind a join returns
-- without doing so.
pub record RelayEnd : Type 0 where
  pub result : Result Error (Unit {0})
  pub aborted : Bool

pub data Reaction : Type 0 where
  goes_on : RelayState → Reaction
  ends : RelayEnd → Reaction

abbrev break_with : Result Error (Unit {0}) → Reaction
break_with result = ends (record { result = result; aborted = true })

abbrev return_panic : Text → Text → Reaction
return_panic name text = ends (record { result = err (name ∷ text ∷ []); aborted = false })

-- One turn of the loop at a time; a branch whose guard is false, or whose timer is not due, is not
-- taken.
unfoldable pub react : TaskNames → ℕ → RelayState → ℕ → Event → Reaction
react names idle s now (guarded_joined (panicked text)) =
    if s.guarded_complete then goes_on s else return_panic names.guarded text
react names idle s now (guarded_joined (returned (ok u))) =
    if s.guarded_complete then goes_on s else goes_on (record s { guarded_complete = true })
react names idle s now (guarded_joined (returned (err e))) =
    if s.guarded_complete then goes_on s else break_with (err e)
react names idle s now (closing_joined (panicked text)) = return_panic names.closing text
react names idle s now (closing_joined (returned result)) = break_with result
react names idle s now (activity_received true) = goes_on (record s { deadline = now + idle })
react names idle s now (activity_received false) = goes_on s
react names idle s now timer_fired =
    if leb s.deadline now then break_with (err (anyhow (codes "idle timeout"))) else goes_on s
react names idle s now shutdown_changed = break_with (err (anyhow (codes "shutdown requested")))

-- The loop over what happens, each with its time; nothing while it still runs.
unfoldable pub relay_loop : TaskNames → ℕ → RelayState → List (ℕ × Event) → Option RelayEnd
relay_loop names idle s [] = none
relay_loop names idle s ((now, event) ∷ events) = elim (react names idle s now event) [
  | goes_on s' ↦ relay_loop names idle s' events
  | ends end ↦ some end
]

-- The deadline is a number without a bound; an instant has one, and adding the idle time may panic.
abbrev pub start : ℕ → ℕ → RelayState
start idle now = record { deadline = now + idle; guarded_complete = false }

pub client_relay : ℕ → ℕ → List (ℕ × Event) → Option RelayEnd
client_relay idle now = relay_loop client_tasks idle (start idle now)

pub server_relay : ℕ → ℕ → List (ℕ × Event) → Option RelayEnd
server_relay idle now = relay_loop server_tasks idle (start idle now)
