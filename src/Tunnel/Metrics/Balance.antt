-- ===== src/Tunnel/Metrics/Balance.antt =====
-- The counters over any history of connections that open and close.
use secure_tunnel.Prelude.{
  ℕ, ◌+◌, ◌-◌, ◌≤◌, ◌<◌, ◌≡◌, List, [], ◌∷◌, Bool, true, false, ◌&&◌, not, if◌then◌else◌, arith,
}
use secure_tunnel.Tunnel.Close.{CloseReason}
use secure_tunnel.Tunnel.Telemetry.{ConnectionTelemetry, fetch_add, u64_mod}
use secure_tunnel.Tunnel.Metrics.{
  TunnelMetrics, default, fetch_sub_one, connection_opened, connection_closed, is_shutdown,
  is_unauthorized, is_decrypt_failed, is_destination_failed, add_if,
}

pub data Event : Type 0 where
  opens : ℕ → Event
  closes : ConnectionTelemetry → CloseReason → ℕ → Event

unfoldable pub after_event : Event → TunnelMetrics → TunnelMetrics
after_event (opens now) m = (connection_opened m now).1
after_event (closes telemetry reason duration) m = connection_closed m telemetry reason duration

unfoldable pub after_events : List Event → TunnelMetrics → TunnelMetrics
unfolding after_event
after_events [] m = m
after_events (e ∷ es) m = after_events es (after_event e m)

-- A connection that a shutdown ended before its handshake counts neither as a success nor as a
-- failure.
abbrev pub is_quiet : ConnectionTelemetry → CloseReason → Bool
is_quiet telemetry reason = not telemetry.handshake_succeeded && is_shutdown reason

-- Opened and closed so far, and quietly closed among those.
pub record Tally : Type 0 where
  pub opened : ℕ
  pub closed : ℕ
  pub quiet : ℕ

abbrev pub tally_event : Event → Tally → Tally
tally_event (opens now) t = record t { opened = t.opened + 1 }
tally_event (closes telemetry reason duration) t = record t {
  closed = t.closed + 1;
  quiet = if is_quiet telemetry reason then t.quiet + 1 else t.quiet;
}

pub tally : List Event → Tally → Tally
tally [] t = t
tally (e ∷ es) t = tally es (tally_event e t)

-- No connection closes that has not opened, and there are fewer than 2^64 - 1 of them.
abbrev pub IsPossible : List Event → Tally → Type 0
IsPossible [] t = Unit {0}
IsPossible (opens now ∷ es) t = (t.opened + 1 < u64_mod) × IsPossible es (tally_event (opens now) t)
IsPossible (closes telemetry reason duration ∷ es) t =
    (t.closed < t.opened) × IsPossible es (tally_event (closes telemetry reason duration) t)

pub record IsBalanced (m : TunnelMetrics) (t : Tally) : Type 0 where
  pub active : m.active_connections + t.closed ≡ t.opened
  pub total : m.connections_total ≡ t.opened
  pub ids : m.next_connection_id ≡ t.opened
  pub outcomes : m.handshake_success_total + m.handshake_failure_total + t.quiet ≡ t.closed
  pub unauthorized : m.unauthorized_client_total ≤ t.closed
  pub decrypts : m.decrypt_failure_total ≤ t.closed
  pub destinations : m.destination_connect_failure_total ≤ t.closed
  pub small : t.opened < u64_mod

fetch_add_small : (c n : ℕ) → c + n < u64_mod → fetch_add c n ≡ c + n
unfolding fetch_add
fetch_add_small c n h = omega arith

fetch_sub_one_small : (c : ℕ) → 1 ≤ c → c < u64_mod → fetch_sub_one c ≡ c - 1
unfolding fetch_sub_one
fetch_sub_one_small c h k = omega arith

opens-IsBalanced :
    (m : TunnelMetrics) (t : Tally) (now : ℕ)
    → t.opened + 1 < u64_mod
    → IsBalanced m t
    → IsBalanced (connection_opened m now).1 (record t { opened = t.opened + 1 })
unfolding connection_opened
opens-IsBalanced m t now h b = ground (
  arith,
  fetch_add_small m.active_connections 1,
  fetch_add_small m.connections_total 1,
  fetch_add_small m.next_connection_id 1,
)

add_if_bounds : (b : Bool) (c n : ℕ) → c ≤ n → n + 1 < u64_mod → add_if b c ≤ n + 1
add_if_bounds true c n h k = omega (arith, fetch_add_small c 1 (omega arith))
add_if_bounds false c n h k = omega arith

-- What one closing adds to the three outcomes together.
outcomes_add :
    (m : TunnelMetrics) (t : Tally) (telemetry : ConnectionTelemetry) (reason : CloseReason)
    (duration : ℕ)
    → t.closed + 1 < u64_mod
    → m.handshake_success_total + m.handshake_failure_total + t.quiet ≡ t.closed
    → let m' = connection_closed m telemetry reason duration in
      m'.handshake_success_total
        + m'.handshake_failure_total
        + (if is_quiet telemetry reason then t.quiet + 1 else t.quiet)
      ≡ t.closed + 1
unfolding connection_closed
outcomes_add m t telemetry reason duration h e = ground (
  arith,
  fetch_add_small m.handshake_success_total 1,
  fetch_add_small m.handshake_failure_total 1,
)

closes-IsBalanced :
    (m : TunnelMetrics) (t : Tally) (telemetry : ConnectionTelemetry) (reason : CloseReason)
    (duration : ℕ)
    → t.closed < t.opened
    → IsBalanced m t
    → IsBalanced
        (connection_closed m telemetry reason duration)
        (tally_event (closes telemetry reason duration) t)
unfolding connection_closed
closes-IsBalanced m t telemetry reason duration h b = record {
  active = omega (arith, fetch_sub_one_small m.active_connections);
  total = b.total;
  ids = b.ids;
  outcomes = outcomes_add m t telemetry reason duration (omega arith) b.outcomes;
  unauthorized = add_if_bounds (is_unauthorized reason) _ t.closed b.unauthorized (omega arith);
  decrypts = add_if_bounds (is_decrypt_failed reason) _ t.closed b.decrypts (omega arith);
  destinations =
      add_if_bounds (is_destination_failed reason) _ t.closed b.destinations (omega arith);
  small = b.small;
}

events-IsBalanced :
    (es : List Event) (m : TunnelMetrics) (t : Tally)
    → IsPossible es t
    → IsBalanced m t
    → IsBalanced (after_events es m) (tally es t)
unfolding after_events tally
events-IsBalanced [] m t p b = b
events-IsBalanced (opens now ∷ es) m t (h, p) b =
    events-IsBalanced es _ _ p (opens-IsBalanced m t now h b)
events-IsBalanced (closes telemetry reason duration ∷ es) m t (h, p) b =
    events-IsBalanced es _ _ p (closes-IsBalanced m t telemetry reason duration h b)

abbrev pub no_events : Tally
no_events = record { opened = 0; closed = 0; quiet = 0 }

-- After any history of fewer than 2^64 - 1 connections, each closed at most once after it was opened:
-- the active connections are those opened and not closed, the total and the last id are the number
-- opened, and each closed connection is counted as a handshake success, as a handshake failure, or
-- is one that a shutdown ended before its handshake; no special failure is counted more often than
-- connections were closed.
pub metrics_balance :
    (es : List Event)
    → IsPossible es no_events
    → IsBalanced (after_events es default) (tally es no_events)
metrics_balance es p = events-IsBalanced es default no_events p (omega arith)
