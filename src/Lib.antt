-- ===== src/Lib.antt =====
-- Secure Tunnel: two programs that carry TCP connections over a Noise channel.  The egress
-- (crates/secure-tunnel-client) listens on a loopback address and opens one tunnel for each local
-- connection; the ingress (crates/secure-tunnel-server) accepts tunnels and connects each to one
-- loopback destination.  Both use the protocol library crates/secure-tunnel.
--
-- A tunnel starts with a clear preface and a Noise IK handshake, in which the server tries each of its
-- static identities and looks the client's key up in an allow-list.  Then each side runs two tasks per
-- connection: one reads plaintext, seals it in records and writes these to the wire, one reads records
-- from the wire, opens them and writes the plaintext.  The two tasks share one cipher state behind a
-- lock.  A relay watches the tasks, an idle timer and the shutdown; the accept loop keeps to a limit of
-- connections, drains them on a signal, and counts.
--
-- Prelude          lists, texts, results, tests on numbers, and methods on mutable state (Prelude/Exec)
-- Protocol         crates/secure-tunnel/src/lib.rs: limits and errors (Error), the preface (Preface),
--                  frames (Frame), the chains of builder calls (Builder), ClientHandshake (Client),
--                  ServerHandshake and ServerReply (Server), the transport session (Session)
-- Protocol/Noise   the interface of the Noise library, which the program only calls: a record of
--                  operations that the definitions take as a parameter
-- Protocol/Session/Channel  what the end-to-end theorems rely on of that library's transport: two
--                  transports in step carry records with a tag of 16 bytes; Examples/Toy has an instance
-- Protocol/Session/Duplex  the same for both directions at once, with records in flight; instance in
--                  Examples/Duplex
-- Protocol/Agreement  what they rely on of its handshake: an initiator and a responder that are built for
--                  each other's keys end with transports in step; instance in Examples/Ik
-- Config           crates/secure-tunnel-client/src/config.rs (Client) and
--                  crates/secure-tunnel-server/src/config.rs (Server): records, defaults, validate and
--                  from_toml, with the TOML parser as an argument; addresses and paths (Values)
-- Tunnel           what crates/secure-tunnel-client/src/main.rs and
--                  crates/secure-tunnel-server/src/main.rs do with a connection: errors and streams (Io),
--                  read_record_frame and its like (Frames), copy_encrypt and copy_decrypt (Copy), relay
--                  (Relay), close reasons (Close), counters (Telemetry, Metrics), the loop of serve (Serve),
--                  key files and keygen (Keys), and the path of a connection up to its relay: handle_outer and
--                  run_noise of the server (Ingress), handle_local and run_noise of the client (Egress)
-- Tunnel/Meeting   the two handshakes against each other; Tunnel/Whole continues with the copying tasks, from
--                  the client to the server (Uplink) and back (Downlink)
-- Tunnel/Relay/Tasks  relay while it runs: its two tasks and its loop on shared state, in any order (the
--                  parts in Relay/Moves); Relay/Trace, Relay/Sealing and Relay/Opening compare it with the loop
--                  of Relay and with the tasks of Copy
-- Tunnel/Pair      the relays of the client and of the server with a network between them;
--                  Tunnel/Whole/Both starts them behind the two handshakes
-- Tunnel/Connection  a connection from its handler through its relay to finish_connection, in both programs
-- Tunnel/OuterTls  tls_connector and tls_acceptor, with the TLS library as a parameter
-- Tunnel/Start     serve from the command to its loop, load, and the doctor commands (Doctor)
-- Bench            bench/src: percentile_95 (Percentile), the samples and endpoint_report (Measures), the
--                  protocol of the measurements (Wire), the tasks of a stream measurement while they run
--                  (Wire/Transfer), run and its gates (Run)
-- Examples         toy ciphers, a file system with one file, and concrete runs
--
-- State is passed explicitly: a method on `&mut self` is a function to its result and the new state, which
-- comes back beside an error too.  A session's cipher state is a cell of a heap that both halves name by
-- its address, so what the one half does to it the other half sees.  An incoming stream is the bytes that
-- have arrived and what follows them: the end, an error, or silence; a writer has a list of the faults
-- that its next calls meet.  The select loops are reactions to events, in any order that the runtime may
-- choose; times are numbers without a bound, so the panic of an idle deadline that is beyond what an instant
-- can hold is left out.  A running relay moves by one round of a task or one turn of its loop at a
-- time, so an abort falls between two rounds.  The network between two relays is TCP as documented: what
-- is written on one side arrives on the other in order, in pieces and after any delay, the stream ends
-- once its writer stopped and everything came, and it may break at any time.  The same
-- goes for the copying of the runtime in the benchmark's responder: it takes bytes from the one stream
-- while it has room, gives them to the other, and ends behind the last.  Counters are natural numbers
-- modulo 2^64.
--
-- Loops on fuel: that of copy_decrypt has one round more than there are bytes in its input, and each round
-- but the last takes a byte at least.  A stream measurement has no fuel: it is a step relation.  Numbers are
-- printed with 128 digits at most, which is enough for every number of at most 128 bits.
--
-- Not modelled: main, the parsing of command lines, logging and the waiting for signals; of the
-- benchmark the accept loop of its responder, the writing of its report and the reading of a process's
-- memory; the scripts.
pub mod Prelude
pub mod Protocol
pub mod Config
pub mod Tunnel
pub mod Bench
mod Examples
