-- ===== src/Tunnel/Connection/Counting.antt =====
-- What a connection adds to the counters of handshakes.
use secure_tunnel.Prelude.{
  ℕ, ◌*◌, ◌≡◌, refl, subst, ◌∙◌, ◌⊎◌, inl, inr, List, if◌then◌else◌, Bool, true, false, Bool-cases,
  Result-cases, Bytes, Text, Result, ok, err, map_err, codes, arith,
}
use secure_tunnel.Prelude.Exec.{Exec, fail_if, ◌>>◌}
use secure_tunnel.Protocol.Noise.{Noise}
use secure_tunnel.Config.Client.{ClientConfig, OuterTlsConfig}
use secure_tunnel.Tunnel.Io.{Error, Input, Output, anyhow, enable_tcp_keepalive}
use secure_tunnel.Tunnel.Keys.{Host, read_private_key, decode_public_key}
use secure_tunnel.Tunnel.Ingress.{in_time, late, shut}
use secure_tunnel.Tunnel.Egress.{Patience, Remote, complete_noise_handshake, run_noise}
use secure_tunnel.Tunnel.Egress.Departing.{
  Attempted, Departure, setup, handle_local, secure_remote, reach, tls_server_name,
}
use secure_tunnel.Tunnel.Telemetry.{ConnectionTelemetry, fetch_add}
use secure_tunnel.Tunnel.Close.{from_error, reason_of}
use secure_tunnel.Tunnel.Metrics.{TunnelMetrics, is_shutdown, finish_connection, connection_closed}
use secure_tunnel.Tunnel.Relay.Tasks.{Move, client_role}
use secure_tunnel.Tunnel.Connection.{
  Surroundings, Connection, relays, closed, crashed, client_relay, client_connection, client_counts,
  relay, shaken, unconnected,
}
use secure_tunnel.Tunnel.Connection.Marks.{
  ClosesWith, relay_through-mark, add_client_to_server-LeavesMark, add_server_to_client-LeavesMark,
}

-- The client's handshake is marked exactly when the handler goes on to its relay.
module _ (N : Noise) where
  complete_noise_handshake-flag :
      (private server : Bytes) (patience : Patience) (o : Remote)
      → (complete_noise_handshake N private server patience o).1.handshake_succeeded
        ≡ o.handshake_succeeded
  unfolding complete_noise_handshake
  complete_noise_handshake-flag private server patience o = ground arith

  -- An action that ends well has marked the handshake; one that fails has left the mark as it was.
  abbrev Marked : Remote → Result Error N.TransportState × Remote → Type 0
  Marked o (r, o') =
      ((t : N.TransportState) × (r ≡ ok t) × (o'.handshake_succeeded ≡ true))
      ⊎ ((e : Error) × (r ≡ err e) × (o'.handshake_succeeded ≡ o.handshake_succeeded))

  run_noise-Marked :
      (H : Host) (config : ClientConfig) (patience : Patience) (o : Remote)
      → Marked o (run_noise N H config patience o)
  unfolding run_noise
  run_noise-Marked H config patience o =
      elim (Result-cases (read_private_key H config.private_key_file)) [
        | inr (x, e) ↦ rw (e, run_noise) (inr (x, refl, refl))
        | inl (own, e) ↦ elim (Result-cases (decode_public_key H config.server_public_key)) [
          | inr (x, e') ↦ rw (e, e', run_noise) (inr (x, refl, refl))
          | inl (server, e') ↦
              elim (Result-cases (complete_noise_handshake N own server patience o).0) [
                | inr (x, e'') ↦
                    rw (e, e', e'', run_noise)
                      (inr (x, refl, complete_noise_handshake-flag own server patience o))
                | inl (t, e'') ↦ rw (e, e', e'', run_noise) (inl (t, refl, refl))
              ]
        ]
      ]

  after_Marked :
      (m : Exec Remote Error (Unit {0})) (n : Exec Remote Error N.TransportState)
      → ((o : Remote) → (m o).1.handshake_succeeded ≡ o.handshake_succeeded)
      → ((o : Remote) → Marked o (n o))
      → (o : Remote) → Marked o ((m >> n) o)
  after_Marked m n kept later o = elim (Result-cases (m o).0) [
    | inr (x, e) ↦ rw (e, ◌>>◌) (inr (x, refl, kept o))
    | inl (u, e) ↦
        rw (e, ◌>>◌)
          (elim (later (m o).1) [
            | inl done ↦ inl done
            | inr (x, bad, same) ↦ inr (x, bad, same ∙ kept o)
          ])
  ]

  reach-flag :
      (text elapsed : Text) (attempt : Attempted) (o : Remote)
      → (reach text elapsed attempt o).1.handshake_succeeded ≡ o.handshake_succeeded
  unfolding reach
  reach-flag text elapsed (shut, x) o = refl
  reach-flag text elapsed (late, x) o = refl
  reach-flag text elapsed (in_time, err e) o = refl
  reach-flag text elapsed (in_time, ok (i, out)) o = refl

  secure_remote-flag :
      (is_dns_name : Text → Bool) (c : OuterTlsConfig) (elapsed : Text) (tls : Attempted)
      (o : Remote)
      → (secure_remote N is_dns_name c elapsed tls o).1.handshake_succeeded ≡ o.handshake_succeeded
  unfolding secure_remote
  secure_remote-flag is_dns_name c elapsed tls o = elim (Bool-cases c.enabled) [
    | inr off ↦ rw (off, secure_remote) refl
    | inl on ↦ elim (Result-cases (tls_server_name is_dns_name c)) [
      | inr (x, e) ↦ rw (on, e, secure_remote) refl
      | inl (name, e) ↦
          rw (on, e, secure_remote)
            (reach-flag (codes "outer TLS handshake timed out") elapsed tls o)
    ]
  ]

  fail_if-flag :
      (b : Bool) (e : Error) (o : Remote)
      → (fail_if b e o).1.handshake_succeeded ≡ o.handshake_succeeded
  fail_if-flag true e o = refl
  fail_if-flag false e o = refl

  pub handle_local-Marked :
      (is_dns_name : Text → Bool) (H : Host) (config : ClientConfig) (d : Departure)
      (patience : Patience) (o : Remote)
      → Marked o (handle_local N is_dns_name H config d patience o)
  unfolding handle_local
  handle_local-Marked is_dns_name H config d patience =
      after_Marked (fail_if d.shutting_down (anyhow (codes "shutdown requested"))) _
        (fail_if-flag d.shutting_down _)
        (after_Marked
          (setup (codes "local TCP nodelay setup failed") (map_err anyhow d.local_nodelay)) _
          (λ o. refl)
          (after_Marked
            (setup (codes "local TCP keepalive setup failed")
              (enable_tcp_keepalive d.local_keepalive))
            _ (λ o. refl)
            (after_Marked (reach (codes "remote connect timed out") patience.elapsed d.connecting) _
              (reach-flag _ patience.elapsed d.connecting)
              (after_Marked
                (setup (codes "remote TCP nodelay setup failed") (map_err anyhow d.remote_nodelay))
                _ (λ o. refl)
                (after_Marked
                  (setup (codes "remote TCP keepalive setup failed")
                    (enable_tcp_keepalive d.remote_keepalive))
                  _ (λ o. refl)
                  (after_Marked
                    (secure_remote N is_dns_name config.outer_tls patience.elapsed d.tls) _
                    (secure_remote-flag is_dns_name config.outer_tls patience.elapsed d.tls)
                    (run_noise-Marked H config patience)))))))

  -- What a connection whose handler has ended so adds to the two counters of handshakes; a relay that
  -- still runs has added nothing.
  abbrev pub Counted :
      TunnelMetrics → TunnelMetrics → Connection N → Result Error N.TransportState → Type 0
  Counted m m' (relays x) r = (m' ≡ m) × (t : N.TransportState) × (r ≡ ok t)
  Counted m m' (closed telemetry result) (ok t) =
      (m'.handshake_success_total ≡ fetch_add m.handshake_success_total 1)
      × (m'.handshake_failure_total ≡ m.handshake_failure_total)
  Counted m m' (closed telemetry result) (err e) =
      (m'.handshake_success_total ≡ m.handshake_success_total)
      × (m'.handshake_failure_total ≡ (
          if is_shutdown (from_error e)
          then m.handshake_failure_total
          else fetch_add m.handshake_failure_total 1))
  Counted m m' crashed r = ⊥

  relayed-Counted :
      (m : TunnelMetrics) (now : ℕ) (k : Connection N) (t : N.TransportState)
      → ClosesWith N true k
      → Counted m (client_counts N m now k) k (ok t)
  unfolding client_counts finish_connection connection_closed
  relayed-Counted m now (relays x) t h = (refl, t, refl)
  relayed-Counted m now (closed telemetry result) t h = ground arith
  relayed-Counted m now crashed t h = absurd h

  -- On a telemetry whose handshake was not marked.
  failed-Counted :
      (m : TunnelMetrics) (now : ℕ) (telemetry : ConnectionTelemetry) (e : Error)
      → telemetry.handshake_succeeded ≡ false
      → Counted m
          (client_counts N m now (closed telemetry (err e)))
          (closed telemetry (err e))
          (err e)
  unfolding client_counts finish_connection connection_closed reason_of
  failed-Counted m now telemetry e unmarked = ground arith

  client_relay-Counted :
      (m : TunnelMetrics) (now idle_seconds : ℕ) (w : Surroundings N) (ms : List Move) (o : Remote)
      (r : Result Error N.TransportState) (o' : Remote)
      → o.handshake_succeeded ≡ false
      → Marked o (r, o')
      → let k = client_relay N w idle_seconds ms (r, o') in Counted m (client_counts N m now k) k r
  unfolding relay
  client_relay-Counted m now idle_seconds w ms o (ok t) o' fresh (inl (t', e, flag)) =
      relayed-Counted m now _ t (
        subst (λ b. ClosesWith N b (client_relay N w idle_seconds ms (ok t, o'))) flag
          (relay_through-mark N client_role add_client_to_server-LeavesMark
            add_server_to_client-LeavesMark _ (idle_seconds * 1000) ms _))
  client_relay-Counted m now idle_seconds w ms o (err x) o' fresh (inl (t', e, flag)) = absurd (cc)
  client_relay-Counted m now idle_seconds w ms o (ok t) o' fresh (inr (x, e, flag)) = absurd (cc)
  client_relay-Counted m now idle_seconds w ms o (err x) o' fresh (inr (x', e, flag)) =
      failed-Counted m now (shaken N o'.handshake_succeeded w.telemetry) x (flag ∙ fresh)

  -- A connection of the client, however it ends: if its handler reached its relay, it adds one to the
  -- handshakes that succeeded, modulo 2^64, and nothing to those that failed, once the relay has returned,
  -- and changes no counter before; if its handler failed before, it adds nothing to the handshakes that
  -- succeeded, and one to those that failed, modulo 2^64, unless its error counts as a shutdown.
  pub client_connection-Counted :
      (H : Host) (is_dns_name : Text → Bool) (config : ClientConfig) (d : Departure)
      (patience : Patience) (w : Surroundings N) (incoming : Input) (outgoing : Output)
      (ms : List Move) (m : TunnelMetrics) (now : ℕ)
      → w.telemetry.handshake_succeeded ≡ false
      → let k = client_connection N H is_dns_name config d patience w incoming outgoing ms in
        Counted m
          (client_counts N m now k)
          k
          (handle_local N is_dns_name H config d patience
            (unconnected N incoming outgoing w.telemetry)).0
  unfolding client_connection
  client_connection-Counted H is_dns_name config d patience w incoming outgoing ms m now fresh =
      let o = unconnected N incoming outgoing w.telemetry in
      let (r, o') = handle_local N is_dns_name H config d patience o in
      client_relay-Counted m now config.timeouts.idle_seconds w ms o r o' fresh
        (handle_local-Marked is_dns_name H config d patience o)
