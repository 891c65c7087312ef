-- ===== src/Tunnel/Pair.antt =====
-- The two relays of one tunnel, that of crates/secure-tunnel-client/src/main.rs and that of
-- crates/secure-tunnel-server/src/main.rs, with the network between them: TCP, which carries the bytes
-- written on one side to the other in order, in pieces and with delays of its own choice, and may break.
pub mod Counting
pub mod Way
pub mod Records
pub mod Sealing
pub mod Opening
pub mod Moving
pub mod Runs
pub mod Closing
pub mod Delivered
use secure_tunnel.Prelude.{
  ℕ, ◌+◌, List, [], ◌∷◌, ◌++◌, Bool, true, false, is_empty, length, take, drop, Text, Bytes,
}
use secure_tunnel.Protocol.Noise.{Noise}
use secure_tunnel.Protocol.Session.{TransportSession}
use secure_tunnel.Tunnel.Io.{Ending, ended, broken, silent, Input}
use secure_tunnel.Tunnel.Relay.Tasks.{Move, Running, is_running, client_role, server_role, move}

-- What happens next to the whole.
pub data Step : Type 0 where
  at_client : Move → Step
  at_server : Move → Step
  carries_up : ℕ → Step
  carries_down : ℕ → Step
  ends_up : Text → Step
  ends_down : Text → Step
  breaks_up : Text → Step
  breaks_down : Text → Step

-- Bytes arrive on a stream that has neither ended nor broken.
abbrev pub arrives : Bytes → Ending → Input → Input
arrives bytes silent i = record i { bytes = i.bytes ++ bytes }
arrives bytes (ended text) i = i
arrives bytes (broken text) i = i

abbrev pub arrived : Bytes → Ending → ℕ
arrived bytes silent = length bytes
arrived bytes (ended text) = 0
arrived bytes (broken text) = 0

abbrev pub closed_with : Ending → Ending → Input → Input
closed_with ending silent i = record i { ending = ending }
closed_with ending (ended text) i = i
closed_with ending (broken text) i = i

-- The stream ends once its writer is no more in use and everything has arrived.
abbrev pub ends_if : Bool → Bool → Text → Input → Input
ends_if false true text i = closed_with (ended text) i.ending i
ends_if false false text i = i
ends_if true b text i = i

module _ (N : Noise) where
  -- The number of bytes that have left the network, each way.
  pub record Pair : Type 0 where
    pub client : Running N
    pub server : Running N
    pub carried_up : ℕ
    pub carried_down : ℕ

  abbrev pub in_flight : ℕ → Running N → Bytes
  in_flight carried x = drop carried x.wire_out.written

  unfoldable pub step : (c s : TransportSession) → ℕ → ℕ → Step → Pair → Pair
  step c s idle idle' (at_client m) p = record p { client = move N client_role c idle m p.client }
  step c s idle idle' (at_server m) p = record p { server = move N server_role s idle' m p.server }
  step c s idle idle' (carries_up n) p =
      let piece = take n (in_flight p.carried_up p.client) in
      record p {
        server = record p.server {
          wire_in = arrives piece p.server.wire_in.ending p.server.wire_in;
        };
        carried_up = p.carried_up + arrived piece p.server.wire_in.ending;
      }
  step c s idle idle' (carries_down n) p =
      let piece = take n (in_flight p.carried_down p.server) in
      record p {
        client = record p.client {
          wire_in = arrives piece p.client.wire_in.ending p.client.wire_in;
        };
        carried_down = p.carried_down + arrived piece p.client.wire_in.ending;
      }
  step c s idle idle' (ends_up text) p = record p {
    server = record p.server {
      wire_in =
          ends_if (is_running p.client.sealing) (is_empty (in_flight p.carried_up p.client)) text
            p.server.wire_in;
    };
  }
  step c s idle idle' (ends_down text) p = record p {
    client = record p.client {
      wire_in =
          ends_if (is_running p.server.sealing) (is_empty (in_flight p.carried_down p.server)) text
            p.client.wire_in;
    };
  }
  step c s idle idle' (breaks_up text) p = record p {
    server = record p.server {
      wire_in = closed_with (broken text) p.server.wire_in.ending p.server.wire_in;
    };
  }
  step c s idle idle' (breaks_down text) p = record p {
    client = record p.client {
      wire_in = closed_with (broken text) p.client.wire_in.ending p.client.wire_in;
    };
  }

  unfoldable pub steps : (c s : TransportSession) → ℕ → ℕ → List Step → Pair → Pair
  unfolding step
  steps c s idle idle' [] p = p
  steps c s idle idle' (t ∷ ts) p = steps c s idle idle' ts (step c s idle idle' t p)
