-- ===== src/Bench/Measures.antt =====
-- The measurements of bench/src/lib.rs.
use secure_tunnel.Prelude.{
  ℕ, ◌+◌, ◌-◌, ◌/◌, ◌^◌, List, map, Option, some, none, Bool, leb, ltb, ◌==◌, if◌then◌else◌,
  is_empty, Text, codes, Result, ok, err, map_err, bail_if, ◌>>=◌, ◌>>◌,
}
use secure_tunnel.Protocol.Server.{Failure, returned, panicked}
use secure_tunnel.Tunnel.Io.{Error, anyhow}
use secure_tunnel.Bench.Percentile.{Duration, percentile_95}

-- The arithmetic of `f64`, which the measurements only call.
pub record Floats : Type 1 where
  pub F64 : Type 0
  pub of_integer : ℕ → F64
  pub as_secs : Duration → F64
  pub divide : F64 → F64 → F64
  pub le : F64 → F64 → Bool
  -- 0.90
  pub nine_tenths : F64

pub record EndpointSample : Type 0 where
  pub connection_setup : Duration
  pub first_byte : Duration

pub record StreamSample : Type 0 where
  pub sent_bytes : ℕ
  pub received_bytes : ℕ
  pub elapsed : Duration

-- `checked_add` of `u64`
abbrev pub checked_add : ℕ → ℕ → Option ℕ
checked_add a b = if ltb (a + b) (2 ^ 64) then some (a + b) else none

abbrev pub checked_sub : ℕ → ℕ → Option ℕ
checked_sub a b = if leb b a then some (a - b) else none

-- `option.context(text)`
abbrev pub present : {A : Type 0} → Text → Option A → Result Error A
present text none = err (anyhow text)
present text (some a) = ok a

-- `duration.as_micros()`
abbrev pub as_micros : Duration → ℕ
as_micros d = d / 1000

-- A signed number.
pub data ℤ : Type 0 where
  pos : ℕ → ℤ
  negsuc : ℕ → ℤ

-- `value as i128`, which wraps, and its negation, which does so for the least number.
abbrev pub as_i128 : ℕ → ℤ
as_i128 n = if ltb n (2 ^ 127) then pos n else negsuc (2 ^ 128 - 1 - n)

abbrev pub negate : ℤ → ℤ
negate (pos n) = if n == 0 then pos 0 else negsuc (n - 1)
negate (negsuc n) = if n == 2 ^ 127 - 1 then negsuc n else pos (n + 1)

-- Both numbers are of `u128`.
unfoldable pub compare_p95_us : ℕ → ℕ → ℤ
compare_p95_us direct tunnel =
    if leb direct tunnel then as_i128 (tunnel - direct) else negate (as_i128 (direct - tunnel))

module _ (F : Floats) where
  open F use {F64, of_integer, as_secs, divide}

  unfoldable pub throughput_bytes_per_second : ℕ → Duration → Result Error F64
  throughput_bytes_per_second bytes elapsed =
      if elapsed == 0
      then err (anyhow (codes "throughput duration must be non-zero"))
      else ok (divide (of_integer bytes) (as_secs elapsed))

  unfoldable pub bidirectional_throughput : StreamSample → Result Error F64
  bidirectional_throughput s = do
    bytes ←
        present (codes "bidirectional byte counter overflow")
          (checked_add s.sent_bytes s.received_bytes)
    throughput_bytes_per_second bytes s.elapsed

  unfoldable pub memory_per_active_connection_kib : ℕ → ℕ → ℕ → Result Error F64
  memory_per_active_connection_kib baseline active connections = do
    bail_if (connections == 0) (anyhow (codes "active connection count must be non-zero"))
    delta ←
        present (codes "active RSS cannot be lower than baseline RSS for this measurement")
          (checked_sub active baseline)
    ok (divide (of_integer delta) (of_integer connections))

  pub record EndpointReport : Type 0 where
    pub connection_setup_p95_us : ℕ
    pub first_byte_p95_us : ℕ
    pub first_byte_samples_us : List ℕ
    pub stream_sent_bytes : ℕ
    pub stream_received_bytes : ℕ
    pub stream_elapsed_us : ℕ
    pub throughput : F64

  -- A call that may panic.
  abbrev pub unwrapped : {A : Type 0} → Option A → Result (Failure Error) A
  unwrapped none = err panicked
  unwrapped (some a) = ok a

  unfoldable pub endpoint_report :
      List EndpointSample → StreamSample → Result (Failure Error) EndpointReport
  endpoint_report samples stream = do
    bail_if (is_empty samples)
        (returned (anyhow (codes "at least one first-byte sample is required")))
    setup ← unwrapped (percentile_95 (map (λ s. s.connection_setup) samples))
    first ← unwrapped (percentile_95 (map (λ s. s.first_byte) samples))
    throughput ← map_err returned (bidirectional_throughput stream)
    ok (record {
      connection_setup_p95_us = as_micros setup;
      first_byte_p95_us = as_micros first;
      first_byte_samples_us = map (λ s. as_micros s.first_byte) samples;
      stream_sent_bytes = stream.sent_bytes;
      stream_received_bytes = stream.received_bytes;
      stream_elapsed_us = as_micros stream.elapsed;
      throughput = throughput;
    })
