-- ===== src/Tunnel/Ingress/Arriving.antt =====
-- The same for the whole of a connection, with outer TLS or without.
use secure_tunnel.Prelude.{
  ◌≡◌, refl, ◌⊎◌, inl, inr, Option, none, some, Bool-cases, Result-cases, Text, Result, ok, err,
}
use secure_tunnel.Prelude.Exec.{◌>>◌}
use secure_tunnel.Protocol.Noise.{Noise}
use secure_tunnel.Protocol.Server.{ServerReply}
use secure_tunnel.Config.Server.{ServerConfig}
use secure_tunnel.Tunnel.Io.{Input, Output}
use secure_tunnel.Tunnel.Keys.{Host}
use secure_tunnel.Tunnel.Ingress.{
  Wait, in_time, late, shut, Runtime, Outer, Arrival, accept_tls, run_noise, handle_outer,
}
use secure_tunnel.Tunnel.Ingress.Contact.{IsAdmitted, run_noise-IsAdmitted}

-- The stream that carries the handshake: that of the TLS library if there is one.
abbrev pub stream_of : Option (Wait × Result Text (Input × Output)) → Input → Input
stream_of none i = i
stream_of (some (w, err text)) i = i
stream_of (some (w, ok (i', out))) i = i'

module _ (N : Noise) (H : Host) where
  -- The rest, once the handshake's stream is there.
  run_noise-Settled :
      (config : ServerConfig) (r : Runtime) (o : Outer) (i : Input) (out : Output)
      → (((run_noise N H config r (record o { incoming = i; outgoing = out })).1.handshake_succeeded
            ≡ o.handshake_succeeded)
          × ((run_noise N H config r (record o { incoming = i; outgoing = out })).1.contacted
              ≡ o.contacted))
        ⊎ ((reply : ServerReply N) × IsAdmitted N H config i reply)
  run_noise-Settled config r o i out =
      elim (run_noise-IsAdmitted N H config r (record o { incoming = i; outgoing = out })) [
        | inl (quiet, succeeded, contacted) ↦ inl (succeeded, contacted)
        | inr admitted ↦ inr admitted
      ]

  tls-Settled :
      (config : ServerConfig) (r : Runtime) (o : Outer)
      (tls : Option (Wait × Result Text (Input × Output)))
      → let after = ((accept_tls r.elapsed tls) >> run_noise N H config r) o in
        (((after.1.handshake_succeeded ≡ o.handshake_succeeded) × (after.1.contacted ≡ o.contacted))
          ⊎ ((reply : ServerReply N) × IsAdmitted N H config (stream_of tls o.incoming) reply))
  unfolding accept_tls
  tls-Settled config r o none = run_noise-Settled config r o o.incoming o.outgoing
  tls-Settled config r o (some (shut, x)) = inl (refl, refl)
  tls-Settled config r o (some (late, x)) = inl (refl, refl)
  tls-Settled config r o (some (in_time, err text)) = inl (refl, refl)
  tls-Settled config r o (some (in_time, ok (i, out))) = run_noise-Settled config r o i out

  -- Whatever a connection meets: the handshake counts as succeeded and the destination is contacted
  -- only if the stream of the handshake, which with outer TLS is that of the TLS library, began with
  -- the version 1 preface and a handshake frame in which one of the server's identities authenticated
  -- a client of the configuration.
  pub handle_outer-IsAdmitted :
      (config : ServerConfig) (x : Arrival) (r : Runtime) (o : Outer)
      → (((handle_outer N H config x r o).1.handshake_succeeded ≡ o.handshake_succeeded)
          × ((handle_outer N H config x r o).1.contacted ≡ o.contacted))
        ⊎ ((reply : ServerReply N) × IsAdmitted N H config (stream_of x.tls o.incoming) reply)
  unfolding handle_outer
  handle_outer-IsAdmitted config x r o = elim (Bool-cases x.shutting_down) [
    | inl down ↦ rw (down, handle_outer) (inl (refl, refl))
    | inr up ↦ elim (Result-cases x.nodelay) [
      | inr (e, a) ↦ rw (up, a, handle_outer) (inl (refl, refl))
      | inl (u, a) ↦ elim (Result-cases x.keepalive) [
        | inr (e, b) ↦ rw (up, a, b, handle_outer) (inl (refl, refl))
        | inl (v, b) ↦ rw (up, a, b, handle_outer) (tls-Settled config r o x.tls)
      ]
    ]
  ]
