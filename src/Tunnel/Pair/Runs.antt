-- ===== src/Tunnel/Pair/Runs.antt =====
-- Both relays of a tunnel in every interleaving of their tasks, of their loops and of the network.
use secure_tunnel.Prelude.{
  ℕ, ◌+◌, ◌≤◌, ◌≡◌, refl, inl, List, [], ◌∷◌, ◌++◌, false, length, drop-length, All, Bytes, arith,
}
use secure_tunnel.Protocol.Noise.{Noise}
use secure_tunnel.Protocol.Session.{TransportSession, Heap}
use secure_tunnel.Protocol.Session.Channel.{holding}
use secure_tunnel.Protocol.Session.Duplex.{Cipher}
use secure_tunnel.Tunnel.Io.{silent, Input, Output, Fault}
use secure_tunnel.Tunnel.Frames.Wire.{input}
use secure_tunnel.Tunnel.Telemetry.{ConnectionTelemetry}
use secure_tunnel.Tunnel.Relay.Tasks.{runs, Running, relaying, client_role, server_role}
use secure_tunnel.Tunnel.Pair.{
  Step, at_client, at_server, carries_up, carries_down, ends_up, ends_down, breaks_up, breaks_down,
  Pair, step, steps,
}
use secure_tunnel.Tunnel.Pair.Counting.{
  client_reads, server_reads, client_reads_cons, server_reads_cons,
}
use secure_tunnel.Tunnel.Pair.Way.{Way}
use secure_tunnel.Tunnel.Pair.Sealing.{Between}
use secure_tunnel.Tunnel.Pair.Moving.{IsSmallMove, move-Joined, carries-Way, ends-Way, breaks-Way}

-- The first is a prefix of the second.
abbrev pub IsPrefix : Bytes → Bytes → Type 0
IsPrefix xs ys = (rest : Bytes) × (ys ≡ xs ++ rest)

-- A writer that was not shut down, whatever it will meet.
abbrev pub open_writer : Bytes → List Fault → Output
open_writer written faults = record { written = written; shut = false; faults = faults }

-- What one side starts its relay with: its cells and counters, what it has sent for the handshake, what
-- its two writers will meet, and the time.
pub record Begun (N : Noise) : Type 0 where
  pub heap : Heap N
  pub telemetry : ConnectionTelemetry
  pub greeting : Bytes
  pub wire_faults : List Fault
  pub sink_faults : List Fault
  pub idle : ℕ
  pub now : ℕ

module _ (N : Noise) (C : Cipher N) where
  open N use {TransportState}

  abbrev pub IsSmallStep : Step → Type 0
  IsSmallStep (at_client m) = IsSmallMove N C m
  IsSmallStep (at_server m) = IsSmallMove N C m
  IsSmallStep (carries_up n) = Unit {0}
  IsSmallStep (carries_down n) = Unit {0}
  IsSmallStep (ends_up text) = Unit {0}
  IsSmallStep (ends_down text) = Unit {0}
  IsSmallStep (breaks_up text) = Unit {0}
  IsSmallStep (breaks_down text) = Unit {0}

  abbrev pub running_from : Begun N → Running N
  running_from x =
      relaying N x.heap x.telemetry (input [] silent) (open_writer x.greeting x.wire_faults)
        (open_writer [] x.sink_faults) x.idle x.now

  abbrev pub begin : Begun N → Begun N → Pair N
  begin x y = record {
    client = running_from x;
    server = running_from y;
    carried_up = length x.greeting;
    carried_down = length y.greeting;
  }

  module _ (c s : TransportSession) where
    pub record IsInStep (n m : ℕ) (p : Pair N) : Type 0 where
      pub left : ℕ
      pub right : ℕ
      pub enough : (n ≤ left) × (m ≤ right)
      pub a : TransportState
      pub b : TransportState
      pub client_holds : p.client.heap c.state ≡ holding N a
      pub server_holds : p.server.heap s.state ≡ holding N b
      pub up : Between N C left p.client p.carried_up p.server a b
      pub down : Between N C right p.server p.carried_down p.client b a

    networked :
        {n m : ℕ} (p : Pair N) (i : IsInStep (0 + n) (0 + m) p) (to_server to_client : Input)
        (carried_up carried_down : ℕ)
        → Between N C i.left p.client carried_up (record p.server { wire_in = to_server }) i.a i.b
        → Between N C i.right p.server carried_down
            (record p.client { wire_in = to_client })
            i.b
            i.a
        → IsInStep n m (record {
          client = record p.client { wire_in = to_client };
          server = record p.server { wire_in = to_server };
          carried_up = carried_up;
          carried_down = carried_down;
        })
    networked p i to_server to_client carried_up carried_down up down = record {
      left = i.left;
      right = i.right;
      enough = omega (arith, i.enough);
      a = i.a;
      b = i.b;
      client_holds = i.client_holds;
      server_holds = i.server_holds;
      up = up;
      down = down;
    }

    step-IsInStep :
        (idle idle' n m : ℕ) (t : Step) (p : Pair N)
        → IsSmallStep t
        → IsInStep (client_reads (t ∷ []) + n) (server_reads (t ∷ []) + m) p
        → IsInStep n m (step N c s idle idle' t p)
    unfolding step
    step-IsInStep idle idle' n m (at_client next) p small i =
        let k =
          move-Joined N C client_role c n i.right idle next p.client p.carried_up p.server
            p.carried_down i.b small
            (record {
              left = i.left;
              enough = omega (arith, i.enough);
              own = i.a;
              holds = i.client_holds;
              out = i.up;
              back = i.down;
            }) in
        record {
          left = k.left;
          right = i.right;
          enough = (k.enough, omega (arith, i.enough));
          a = k.own;
          b = i.b;
          client_holds = k.holds;
          server_holds = i.server_holds;
          up = k.out;
          down = k.back;
        }
    step-IsInStep idle idle' n m (at_server next) p small i =
        let k =
          move-Joined N C server_role s m i.left idle' next p.server p.carried_down p.client
            p.carried_up i.a small
            (record {
              left = i.right;
              enough = omega (arith, i.enough);
              own = i.b;
              holds = i.server_holds;
              out = i.down;
              back = i.up;
            }) in
        record {
          left = i.left;
          right = k.left;
          enough = (omega (arith, i.enough), k.enough);
          a = i.a;
          b = k.own;
          client_holds = i.client_holds;
          server_holds = k.holds;
          up = k.back;
          down = k.out;
        }
    step-IsInStep idle idle' n m (carries_up size) p small i =
        networked p i _ p.client.wire_in _ p.carried_down
          (carries-Way N C size p.server.wire_in.bytes p.server.wire_in.ending i.up) i.down
    step-IsInStep idle idle' n m (carries_down size) p small i =
        networked p i p.server.wire_in _ p.carried_up _ i.up
          (carries-Way N C size p.client.wire_in.bytes p.client.wire_in.ending i.down)
    step-IsInStep idle idle' n m (ends_up text) p small i =
        networked p i _ p.client.wire_in p.carried_up p.carried_down
          (ends-Way N C text p.server.wire_in.bytes p.server.wire_in.ending i.up) i.down
    step-IsInStep idle idle' n m (ends_down text) p small i =
        networked p i p.server.wire_in _ p.carried_up p.carried_down i.up
          (ends-Way N C text p.client.wire_in.bytes p.client.wire_in.ending i.down)
    step-IsInStep idle idle' n m (breaks_up text) p small i =
        networked p i _ p.client.wire_in p.carried_up p.carried_down
          (breaks-Way N C text p.server.wire_in.bytes p.server.wire_in.ending i.up) i.down
    step-IsInStep idle idle' n m (breaks_down text) p small i =
        networked p i p.server.wire_in _ p.carried_up p.carried_down i.up
          (breaks-Way N C text p.client.wire_in.bytes p.client.wire_in.ending i.down)

    pub steps-IsInStep :
        (idle idle' : ℕ) (ts : List Step) (p : Pair N)
        → All IsSmallStep ts
        → IsInStep (client_reads ts) (server_reads ts) p
        → IsInStep 0 0 (steps N c s idle idle' ts p)
    unfolding steps
    steps-IsInStep idle idle' [] p u i = i
    steps-IsInStep idle idle' (t ∷ ts) p (small, rest) i = steps-IsInStep idle idle' ts _ rest (
        step-IsInStep idle idle' (client_reads ts) (server_reads ts) t p small (record {
          left = i.left;
          right = i.right;
          enough = rw (client_reads_cons t ts, server_reads_cons t ts) i.enough;
          a = i.a;
          b = i.b;
          client_holds = i.client_holds;
          server_holds = i.server_holds;
          up = i.up;
          down = i.down;
        }))

    begun-Way :
        (n : ℕ) (written : Bytes) (a b : TransportState)
        → C.Flight n a [] b
        → Way N C n [] written (length written) runs (input [] silent) [] runs a b
    begun-Way n written a b flight = record {
      queue = [];
      flight = flight;
      fits = tt;
      lost = [];
      total = refl;
      state = inl (
        refl,
        record {
          missing = [];
          on_wire = rw (drop-length written) refl;
          whole = inl refl;
          within = omega arith;
          closing = tt;
          unended = refl;
        },
      );
    }

    pub begin-IsInStep :
        (x y : Begun N) (ts : List Step) (a b : TransportState)
        → C.Flight (client_reads ts) a [] b
        → C.Flight (server_reads ts) b [] a
        → x.heap c.state ≡ holding N a
        → y.heap s.state ≡ holding N b
        → IsInStep (client_reads ts) (server_reads ts) (begin x y)
    begin-IsInStep x y ts a b forth back held held' = record {
      left = client_reads ts;
      right = server_reads ts;
      enough = omega arith;
      a = a;
      b = b;
      client_holds = held;
      server_holds = held';
      up = begun-Way (client_reads ts) x.greeting a b forth;
      down = begun-Way (server_reads ts) y.greeting b a back;
    }
