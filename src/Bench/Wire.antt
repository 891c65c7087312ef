-- ===== src/Bench/Wire.antt =====
-- The protocol of the measurements, in bench/src/lib.rs: `serve_connection`, `first_byte_sample` and
-- `stream_sample`.
pub mod Transfer
pub mod Flow
pub mod Sound
pub mod Echo
use secure_tunnel.Prelude.{
  ℕ, zero, suc, ◌+◌, ◌-◌, ◌*◌, List, [], ◌∷◌, ◌++◌, Bool, true, false, not, leb, ◌==◌,
  if◌then◌else◌, bytes_eq, Text, codes, decimal, Bytes, Result, ok, err, map_err,
}
use secure_tunnel.Prelude.Exec.{Exec, pure, raise, lift, gets, fail_if, ◌>>=◌, ◌>>◌}
use secure_tunnel.Tunnel.Io.{
  Error, anyhow, context, Stop, failed, exhausted, Input, Output, read_exact, write_all, flush,
  shutdown,
}
use secure_tunnel.Bench.Percentile.{Duration}
use secure_tunnel.Bench.Measures.{EndpointSample, StreamSample}

unfoldable pub benchmark_bytes : ℕ
benchmark_bytes = 64 * 1024 * 1024

-- `*b"CDXBCH01"`
abbrev pub magic : Bytes
magic = b'C' ∷ b'D' ∷ b'X' ∷ b'B' ∷ b'C' ∷ b'H' ∷ b'0' ∷ b'1' ∷ []

abbrev pub op_first_byte : ℕ
op_first_byte = 1

abbrev pub op_stream : ℕ
op_stream = 2

abbrev pub first_byte_reply : ℕ
first_byte_reply = 0xa5

abbrev pub copy_chunk_bytes : ℕ
copy_chunk_bytes = 16 * 1024

pub record Connection : Type 0 where
  pub incoming : Input
  pub outgoing : Output

abbrev pub reading : {A : Type 0} → Exec Input Stop A → Exec Connection Stop A
reading m c = ((m c.incoming).0, record c { incoming = (m c.incoming).1 })

abbrev pub writing : {A : Type 0} → Exec Output Stop A → Exec Connection Stop A
writing m c = ((m c.outgoing).0, record c { outgoing = (m c.outgoing).1 })

abbrev pub failing : {A : Type 0} → Result Error A → Exec Connection Stop A
failing result = lift (map_err failed result)

-- `remaining.min(buffer.len())`
abbrev pub chunk : ℕ → ℕ
chunk remaining = if leb remaining copy_chunk_bytes then remaining else copy_chunk_bytes

-- What a spawned task comes to, when it is awaited: the runtime reports a panic.
unfoldable pub awaited : Text → Result Text (Result Text ℕ) → Exec Connection Stop ℕ
awaited text joined =
    failing (context text (map_err anyhow joined)) >>= λ result. failing (map_err anyhow result)

-- `connected` and `nodelay` are what connecting and the socket option come to, `writer` and `reader` what the
-- two spawned tasks come to (Transfer), and `elapsed` is the time that is measured.
unfoldable pub stream_sample :
    Text
    → Result Text (Unit {0})
    → Result Text (Unit {0})
    → Result Text (Result Text ℕ)
    → Result Text (Result Text ℕ)
    → Duration
    → Exec Connection Stop StreamSample
unfolding awaited
stream_sample endpoint connected nodelay writer reader elapsed = do
  failing (context (codes "connect to benchmark endpoint " ++ endpoint) (map_err anyhow connected))
  failing (map_err anyhow nodelay)
  writing (write_all magic)
  writing (write_all (op_stream ∷ []))
  writing flush
  sent ← awaited (codes "stream writer task panicked") writer
  received ← awaited (codes "stream reader task panicked") reader
  pure (record { sent_bytes = sent; received_bytes = received; elapsed = elapsed })

abbrev pub is_reply : Bytes → Bool
is_reply reply = bytes_eq reply (first_byte_reply ∷ [])

unfoldable pub first_byte_sample :
    Text
    → Result Text (Unit {0})
    → Result Text (Unit {0})
    → Duration
    → Duration
    → Exec Connection Stop EndpointSample
first_byte_sample endpoint connected nodelay setup elapsed = do
  failing (context (codes "connect to benchmark endpoint " ++ endpoint) (map_err anyhow connected))
  failing (map_err anyhow nodelay)
  writing (write_all (magic ++ (op_first_byte ∷ [])))
  writing flush
  reply ← reading (read_exact 1)
  fail_if (not (is_reply reply))
      (failed (anyhow (codes "benchmark responder sent an invalid first-byte reply")))
  pure (record { connection_setup = setup; first_byte = elapsed })

module _ (copy : Exec Connection Stop (Unit {0})) where
  -- `match` on the operation; `copy` is `tokio::io::copy` from the one half to the other.
  unfoldable pub respond : Bytes → Exec Connection Stop (Unit {0})
  respond [] = pure tt
  respond (operation ∷ more) =
      if operation == op_first_byte
      then (writing (write_all (first_byte_reply ∷ [])) >> writing flush)
      else if operation == op_stream
      then copy
      else raise (failed (anyhow (codes "unknown benchmark operation " ++ decimal operation)))

  unfoldable pub serve_connection : Result Text (Unit {0}) → Exec Connection Stop (Unit {0})
  serve_connection nodelay = do
    failing (map_err anyhow nodelay)
    found ← reading (read_exact 8)
    fail_if (not (bytes_eq found magic))
        (failed (anyhow (codes "invalid benchmark protocol magic")))
    operation ← reading (read_exact 1)
    respond operation
