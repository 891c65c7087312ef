-- ===== src/Bench/Run.antt =====
-- `run` of bench/src/main.rs, with `collect_samples` and `memory_report`.
pub mod Gates
use secure_tunnel.Prelude.{
  ℕ, zero, suc, List, [], ◌∷◌, ◌++◌, Option, some, none, Bool, true, false, leb, Text, codes,
  Result, ok, err, map_err, ◌>>=◌, ◌>>◌,
}
use secure_tunnel.Protocol.Server.{Failure, returned}
use secure_tunnel.Tunnel.Io.{Error, anyhow, context}
use secure_tunnel.Bench.Wire.{benchmark_bytes}
use secure_tunnel.Bench.Measures.{
  Floats, EndpointSample, StreamSample, EndpointReport, ℤ, pos, negsuc, compare_p95_us,
  memory_per_active_connection_kib, endpoint_report,
}

-- What one call comes to: in time with its result, or late, with the text of the timeout's error.
pub data Timely (A : Type 0) : Type 0 where
  late : Text → Timely A
  in_time : Result Error A → Timely A

-- `timeout(…).await.context(text)??`
abbrev pub timed : {A : Type 0} → Text → Timely A → Result Error A
timed text (late elapsed) = err (text ∷ elapsed ∷ [])
timed text (in_time result) = result

-- `attempts i` is the call that the round with `i` rounds behind it makes.
unfoldable pub collect_samples :
    (ℕ → Timely EndpointSample) → ℕ → Result Error (List EndpointSample)
collect_samples attempts zero = ok []
collect_samples attempts (suc i) = do
  result ← collect_samples attempts i
  sample ← timed (codes "first-byte benchmark timed out") (attempts i)
  ok (result ++ (sample ∷ []))

-- `value <= 10_000`
abbrev pub le_10_000 : ℤ → Bool
le_10_000 (pos n) = leb n 10000
le_10_000 (negsuc n) = true

pub record MemorySample : Type 0 where
  pub baseline_rss_kib : ℕ
  pub active_rss_kib : ℕ
  pub active_connections : ℕ

-- What the network shows of one of the two paths.
pub record Route : Type 0 where
  pub attempts : ℕ → Timely EndpointSample
  pub stream : Timely StreamSample

module _ (F : Floats) where
  open F use {F64, of_integer, divide}

  -- The texts on the method are left out; the three numbers of a sample stand together.
  pub record MemoryReport : Type 0 where
    pub status : Text
    pub sample : Option MemorySample
    pub per_connection_kib : Option F64

  unfoldable pub memory_report : Option MemorySample → Result Error MemoryReport
  memory_report none =
      ok (record { status = codes "not_measured"; sample = none; per_connection_kib = none })
  memory_report (some m) = do
    per_connection ←
        memory_per_active_connection_kib F m.baseline_rss_kib m.active_rss_kib m.active_connections
    ok (record {
      status = codes "measured_from_operator_rss_samples";
      sample = some m;
      per_connection_kib = some per_connection;
    })

  pub record Report : Type 0 where
    pub schema_version : ℕ
    pub measured_at_unix_seconds : ℕ
    pub hardware_note : Text
    pub stream_bytes_each_direction : ℕ
    pub small_flushed_write_bytes : ℕ
    pub samples_per_path : ℕ
    pub direct : EndpointReport F
    pub tunnel : EndpointReport F
    pub additional_first_byte_p95_us : ℤ
    pub throughput_fraction : F64
    pub first_byte_gate : Bool
    pub throughput_gate : Bool
    pub memory_gate : Option Bool
    pub memory : MemoryReport

  abbrev within_mib : Option F64 → Option Bool
  within_mib none = none
  within_mib (some value) = some (F.le value (of_integer 1024))

  -- `now` is the time since the Unix epoch in seconds, or the error of a clock before it.
  unfoldable pub run :
      Route → Route → ℕ → Text → Option MemorySample → Result Text ℕ → Result (Failure Error) Report
  run direct_path tunnel_path samples hardware_note memory now = do
    direct_samples ← map_err returned (collect_samples direct_path.attempts samples)
    direct_stream ←
        map_err returned (timed (codes "direct stream benchmark timed out") direct_path.stream)
    tunnel_samples ← map_err returned (collect_samples tunnel_path.attempts samples)
    tunnel_stream ←
        map_err returned (timed (codes "tunnel stream benchmark timed out") tunnel_path.stream)
    direct ← endpoint_report F direct_samples direct_stream
    tunnel ← endpoint_report F tunnel_samples tunnel_stream
    let additional = compare_p95_us direct.first_byte_p95_us tunnel.first_byte_p95_us
    let fraction = divide tunnel.throughput direct.throughput
    memory_result ← map_err returned (memory_report memory)
    seconds ←
        map_err returned (context (codes "system clock predates Unix epoch") (map_err anyhow now))
    ok (record {
      schema_version = 1;
      measured_at_unix_seconds = seconds;
      hardware_note = hardware_note;
      stream_bytes_each_direction = benchmark_bytes;
      small_flushed_write_bytes = 9;
      samples_per_path = samples;
      direct = direct;
      tunnel = tunnel;
      additional_first_byte_p95_us = additional;
      throughput_fraction = fraction;
      first_byte_gate = le_10_000 additional;
      throughput_gate = F.le F.nine_tenths fraction;
      memory_gate = within_mib memory_result.per_connection_kib;
      memory = memory_result;
    })
