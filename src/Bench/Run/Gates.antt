-- ===== src/Bench/Run/Gates.antt =====
-- What a report says of the two paths.
use secure_tunnel.Prelude.{
  ℕ, zero, suc, ◌+◌, ◌≤◌, ◌<◌, ◌^◌, ◌≡◌, ◌↔◌, ◌⊎◌, refl, ap, ◌∙◌, inl, inr, List, [], ◌∷◌, ◌++◌,
  map, Option, some, true, false, is_empty, length, length-append, All, Result-cases, Text, codes,
  Result, ok, err, ◌>>=◌, bind_result-ok, arith,
}
use secure_tunnel.Protocol.Server.{Failure, returned, panicked}
use secure_tunnel.Tunnel.Io.{Error}
use secure_tunnel.Bench.Percentile.{Duration, percentile_95}
use secure_tunnel.Bench.Percentile.Rank.{percentile_95_lem, All-percentile_95}
use secure_tunnel.Bench.Measures.{
  Floats, EndpointSample, StreamSample, EndpointReport, as_micros, compare_p95_us,
  bidirectional_throughput, endpoint_report,
}
use secure_tunnel.Bench.Run.{
  Timely, late, in_time, timed, collect_samples, le_10_000, MemorySample, Route, memory_report,
  Report, run,
}

-- 2^94 nanoseconds are more than the largest `Duration`.
abbrev pub IsDuration : Duration → Type 0
IsDuration d = d < 2 ^ 94

compare_exact :
    (direct tunnel : ℕ)
    → direct < 2 ^ 127
    → tunnel < 2 ^ 127
    → (le_10_000 (compare_p95_us direct tunnel) ≡ true) ↔ (tunnel ≤ direct + 10000)
unfolding compare_p95_us
compare_exact direct tunnel h k = ground arith

length-map : {A B : Type 0} (f : A → B) (xs : List A) → length (map f xs) ≡ length xs
length-map f [] = refl
length-map f (x ∷ xs) = ap suc (length-map f xs)

All-map :
    {A B : Type 0} (P : B → Type 0) (f : A → B) (xs : List A)
    → All (λ x. P (f x)) xs
    → All P (map f xs)
All-map P f [] u = tt
All-map P f (x ∷ xs) (p, u) = (p, All-map P f xs u)

All-append :
    {A : Type 0} (P : A → Type 0) (xs : List A) (y : A) → All P xs → P y → All P (xs ++ (y ∷ []))
All-append P [] y u p = (p, tt)
All-append P (x ∷ xs) y (q, u) p = (q, All-append P xs y u p)

ok-injective : {E A : Type 0} (a b : A) → Path (Result E A) (ok a) (ok b) → a ≡ b
ok-injective a b e = cc

timed-ok :
    {A : Type 0} (text : Text) (t : Timely A) (a : A) → timed text t ≡ ok a → t ≡ in_time (ok a)
timed-ok text (late elapsed) a e = absurd cc
timed-ok text (in_time result) a e = ap in_time e

-- The samples that were collected, one for each round, satisfy what all attempts do.
collect_samples-All :
    (P : EndpointSample → Type 0) (attempts : ℕ → Timely EndpointSample)
    → ((i : ℕ) (sample : EndpointSample) → attempts i ≡ in_time (ok sample) → P sample)
    → (n : ℕ) (xs : List EndpointSample) → collect_samples attempts n ≡ ok xs
    → (length xs ≡ n) × All P xs
unfolding collect_samples
collect_samples-All P attempts holds zero xs e = rw⁻¹ (ok-injective [] xs e) (refl, tt)
collect_samples-All P attempts holds (suc n) xs e =
    let (before, a, e') =
      bind_result-ok (collect_samples attempts n)
        (λ result. timed (codes "first-byte benchmark timed out") (attempts n) >>= λ sample.
          ok (result ++ (sample ∷ [])))
        xs e in
    let (sample, b, last) =
      bind_result-ok (timed (codes "first-byte benchmark timed out") (attempts n))
        (λ sample. ok (before ++ (sample ∷ []))) xs e' in
    let (sized, all) = collect_samples-All P attempts holds n before a in
    rw⁻¹ (ok-injective (before ++ (sample ∷ [])) xs last) (
      length-append before (sample ∷ []) ∙ omega (arith, sized),
      All-append P before sample all (
          holds n sample (timed-ok (codes "first-byte benchmark timed out") (attempts n) sample b)),
    )

-- On samples there is a percentile, and it is one of them.
percentile_95-found :
    (P : Duration → Type 0) (f : EndpointSample → Duration) (samples : List EndpointSample)
    → 1 ≤ length samples
    → length samples < 2 ^ 16
    → All (λ s. P (f s)) samples
    → (v : Duration) × (percentile_95 (map f samples) ≡ some v) × P v
percentile_95-found P f samples h few all =
    let sized = length-map f samples in
    let (v, found, most, least) =
      percentile_95_lem (map f samples) (omega (arith, sized)) (omega (arith, sized)) in
    (v, found, All-percentile_95 P (map f samples) v (All-map P f samples all) found)

All-trivial : {A : Type 0} (xs : List A) → All (λ x. Unit {0}) xs
All-trivial [] = tt
All-trivial (x ∷ xs) = (tt, All-trivial xs)

is_empty-length : {A : Type 0} (xs : List A) → 1 ≤ length xs → is_empty xs ≡ false
is_empty-length [] h = absurd (omega arith)
is_empty-length (x ∷ xs) h = refl

module _ (F : Floats) where
  -- A report whose percentile is small, or an error, but no panic.
  abbrev Reported : List EndpointSample → StreamSample → Type 0
  Reported samples stream =
      ((report : EndpointReport F) × (endpoint_report F samples stream ≡ ok report)
        × (report.first_byte_p95_us < 2 ^ 127))
      ⊎ ((e : Error) × (endpoint_report F samples stream ≡ err (returned e)))

  endpoint_report-Reported :
      (samples : List EndpointSample) (stream : StreamSample)
      → 1 ≤ length samples
      → length samples < 2 ^ 16
      → All (λ s. IsDuration s.first_byte) samples
      → Reported samples stream
  unfolding endpoint_report
  endpoint_report-Reported samples stream h few all =
      let (setup, a, u) =
        percentile_95-found (λ d. Unit {0}) (λ s. s.connection_setup) samples h few
          (All-trivial samples) in
      let (first, b, small) =
        percentile_95-found IsDuration (λ s. s.first_byte) samples h few all in
      let some_samples = is_empty-length samples h in
      elim (Result-cases (bidirectional_throughput F stream)) [
        | inl (t, c) ↦
            let report : EndpointReport F = record {
              connection_setup_p95_us = as_micros setup;
              first_byte_p95_us = as_micros first;
              first_byte_samples_us = map (λ s. as_micros s.first_byte) samples;
              stream_sent_bytes = stream.sent_bytes;
              stream_received_bytes = stream.received_bytes;
              stream_elapsed_us = as_micros stream.elapsed;
              throughput = t;
            } in
            inl (report, rw (some_samples, a, b, c, endpoint_report) refl, omega (arith, small))
        | inr (x, c) ↦ inr (x, rw (some_samples, a, b, c, endpoint_report) refl)
      ]

  -- What is known of the outcome of a run.
  abbrev pub Judged : Result (Failure Error) (Report F) → Type 0
  Judged (ok report) =
      (report.first_byte_gate ≡ true)
      ↔ (report.tunnel.first_byte_p95_us ≤ report.direct.first_byte_p95_us + 10000)
  Judged (err (returned e)) = Unit {0}
  Judged (err panicked) = ⊥

  -- With 1 to 65535 samples per path, as the command line demands, and durations that a `Duration` can
  -- hold, `run` never panics, and when it ends with a report, its gate on the first byte is passed
  -- exactly when the tunnel's percentile is at most 10000 microseconds above that of the direct path.
  pub run-Judged :
      (direct tunnel : Route) (n : ℕ) (note : Text) (memory : Option MemorySample)
      (now : Result Text ℕ)
      → 1 ≤ n
      → n < 2 ^ 16
      → ((i : ℕ) (sample : EndpointSample)
          → direct.attempts i ≡ in_time (ok sample)
          → IsDuration sample.first_byte)
      → ((i : ℕ) (sample : EndpointSample)
          → tunnel.attempts i ≡ in_time (ok sample)
          → IsDuration sample.first_byte)
      → Judged (run F direct tunnel n note memory now)
  unfolding run
  run-Judged direct tunnel n note memory now h few lasts lasts' =
      elim (Result-cases (collect_samples direct.attempts n)) [
        | inr (e, a) ↦ rw (a, run) tt
        | inl (xs, a) ↦
            elim (Result-cases (timed (codes "direct stream benchmark timed out") direct.stream)) [
              | inr (e, b) ↦ rw (a, b, run) tt
              | inl (s, b) ↦ elim (Result-cases (collect_samples tunnel.attempts n)) [
                | inr (e, c) ↦ rw (a, b, c, run) tt
                | inl (ys, c) ↦
                    elim (Result-cases
                      (timed (codes "tunnel stream benchmark timed out") tunnel.stream)) [
                        | inr (e, d) ↦ rw (a, b, c, d, run) tt
                        | inl (s', d) ↦
                            let (sized, all) =
                              collect_samples-All (λ s. IsDuration s.first_byte) direct.attempts
                                lasts n xs a in
                            let (sized', all') =
                              collect_samples-All (λ s. IsDuration s.first_byte) tunnel.attempts
                                lasts' n ys c in
                            elim (endpoint_report-Reported xs s (omega (arith, sized))
                              (omega (arith, sized)) all) [
                                | inr (e, f) ↦ rw (a, b, c, d, f, run) tt
                                | inl (r, f, small) ↦
                                    elim (endpoint_report-Reported ys s' (omega (arith, sized'))
                                      (omega (arith, sized')) all') [
                                        | inr (e, g) ↦ rw (a, b, c, d, f, g, run) tt
                                        | inl (r', g, small') ↦
                                            elim (Result-cases (memory_report F memory)) [
                                              | inr (e, k) ↦ rw (a, b, c, d, f, g, k, run) tt
                                              | inl (m, k) ↦ elim (Result-cases now) [
                                                | inr (e, l) ↦ rw (a, b, c, d, f, g, k, l, run) tt
                                                | inl (t, l) ↦
                                                    rw (a, b, c, d, f, g, k, l, run)
                                                      (compare_exact r.first_byte_p95_us
                                                        r'.first_byte_p95_us small small')
                                              ]
                                            ]
                                      ]
                              ]
                      ]
              ]
            ]
      ]
