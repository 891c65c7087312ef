-- ===== src/Examples/Measures.antt =====
-- Concrete measurements.
use secure_tunnel.Prelude.{
  ℕ, ◌*◌, ◌/◌, ◌≤◌, ◌<◌, ◌+◌, ◌≡◌, refl, subst, ◌⊎◌, false, ◌++◌, List, [], ◌∷◌, none, some, leb,
  codes, ok, arith,
}
use secure_tunnel.Tunnel.Io.{ended}
use secure_tunnel.Bench.Percentile.{Duration, percentile_95}
use secure_tunnel.Bench.Percentile.Rank.{count_le, count_lt, percentile_95_lem}
use secure_tunnel.Bench.Measures.{Floats, EndpointSample}
use secure_tunnel.Bench.Run.{in_time, Route, run}
use secure_tunnel.Bench.Run.Gates.{IsDuration, Judged, run-Judged}
use secure_tunnel.Bench.Wire.{benchmark_bytes, magic, op_stream, stream_sample}
use secure_tunnel.Bench.Wire.Transfer.{
  sends, receives, copies, Transfer, spawned, Step, writes, copies_in, copies_out, reads, Run,
  begins, goes,
}
use secure_tunnel.Bench.Wire.Echo.{connection, IsComplete, stream_sample-completes}

abbrev samples : List Duration
samples = 40 ∷ 10 ∷ 30 ∷ 20 ∷ []

percentile_95_lem_example :
    (v : Duration) × (percentile_95 samples ≡ some v)
    × (95 * 4 ≤ 100 * count_le v samples)
    × (100 * count_lt v samples < 95 * 4)
percentile_95_lem_example = percentile_95_lem samples (omega arith) (omega arith)

-- Floating-point numbers replaced by whole ones.
abbrev whole : Floats
whole = record {
  F64 = ℕ;
  of_integer = λ n. n;
  as_secs = λ d. d;
  divide = λ a b. a / b;
  le = leb;
  nine_tenths = 1;
}

-- Every call takes `d` nanoseconds.
abbrev route : Duration → Route
route d = record {
  attempts = λ i. in_time (ok (record { connection_setup = 5; first_byte = d }));
  stream = in_time (ok (record { sent_bytes = 10; received_bytes = 10; elapsed = 4 }));
}

lasts :
    (d : Duration) (i : ℕ) (sample : EndpointSample)
    → IsDuration d
    → (route d).attempts i ≡ in_time (ok sample)
    → IsDuration sample.first_byte
lasts d i sample h e = subst IsDuration (cc) h

run-Judged_example :
    Judged whole
      (run whole (route 4000) (route 9000000) 3 (codes "two laptops") none (ok 1700000000))
run-Judged_example =
    run-Judged whole (route 4000) (route 9000000) 3 (codes "two laptops") none (ok 1700000000)
      (omega arith) (omega arith) (λ i sample. lasts 4000 i sample (omega arith))
      (λ i sample. lasts 9000000 i sample (omega arith))

abbrev under_way : Transfer
under_way = record {
  writer = sends 67108864 16381;
  up = 1;
  closed = false;
  copier = copies 1;
  down = 0;
  reader = receives 67108864 16383;
}

-- The writer's first call of the socket takes three bytes, the responder copies two of them, and the reader
-- gets one.
started : Run 8 4 8 spawned 4 under_way
unfolding benchmark_bytes
started =
    goes
      (goes
        (goes (goes begins (writes 67108864 16384 3 refl (omega arith) (omega arith) (omega arith)))
          (copies_in 0 2 refl (omega arith) (omega arith) (omega arith)))
        (copies_out 2 1 refl (omega arith) (omega arith) (omega arith)))
      (reads 67108864 16384 1 refl (omega arith) (omega arith) (omega arith))

stream_sample-completes_example :
    (4 ≤ 4 * benchmark_bytes + 2)
    × (((t' : Transfer) × Step 8 4 8 under_way t')
        ⊎ (IsComplete under_way
            × (stream_sample
                  (codes "127.0.0.1:7")
                  (ok tt)
                  (ok tt)
                  (ok (ok benchmark_bytes))
                  (ok (ok benchmark_bytes))
                  12
                  (connection [] [] (ended (codes "end")))
                ≡ (
                  ok (record {
                    sent_bytes = benchmark_bytes;
                    received_bytes = benchmark_bytes;
                    elapsed = 12;
                  }),
                  connection [] (magic ++ (op_stream ∷ [])) (ended (codes "end")),
                ))))
stream_sample-completes_example =
    stream_sample-completes 8 4 8 4 under_way (codes "127.0.0.1:7") 12 [] (ended (codes "end"))
      (omega arith) (omega arith) (omega arith) started
