-- ===== src/Tunnel/Egress/Departing.antt =====
-- crates/secure-tunnel-client/src/main.rs: `handle_local` up to its relay.
use secure_tunnel.Prelude.{
  [], ◌∷◌, none, some, Bool, if◌then◌else◌, Text, codes, Result, ok, err, map_err,
}
use secure_tunnel.Prelude.Exec.{Exec, pure, lift, fail_if, ◌>>=◌, ◌>>◌}
use secure_tunnel.Protocol.Noise.{Noise}
use secure_tunnel.Config.Client.{ClientConfig, OuterTlsConfig}
use secure_tunnel.Tunnel.Io.{Error, anyhow, context, enable_tcp_keepalive, Input, Output}
use secure_tunnel.Tunnel.Keys.{Host}
use secure_tunnel.Tunnel.Ingress.{Wait, in_time, late, shut}
use secure_tunnel.Tunnel.Egress.{Patience, Remote, run_noise}

-- What comes of a connection attempt: which branch of the `select!` is first, and the stream or error.
abbrev pub Attempted : Type 0
Attempted = Wait × Result Text (Input × Output)

pub record Departure : Type 0 where
  pub shutting_down : Bool
  pub local_nodelay : Result Text (Unit {0})
  pub local_keepalive : Result Text (Unit {0})
  pub connecting : Attempted
  pub remote_nodelay : Result Text (Unit {0})
  pub remote_keepalive : Result Text (Unit {0})
  pub tls : Attempted

-- From then on the stream is the one that was reached.
unfoldable pub reach : Text → Text → Attempted → Exec Remote Error (Unit {0})
reach text elapsed (shut, result) o = (err (anyhow (codes "shutdown requested")), o)
reach text elapsed (late, result) o = (err (text ∷ elapsed ∷ []), o)
reach text elapsed (in_time, err e) o = (err (anyhow e), o)
reach text elapsed (in_time, ok (i, out)) o = (ok tt, record o { incoming = i; outgoing = out })

abbrev pub setup : Text → Result Error (Unit {0}) → Exec Remote Error (Unit {0})
setup text result = lift (context text result)

-- Whether a text is a DNS name is for the TLS library to say.
unfoldable pub tls_server_name : (Text → Bool) → OuterTlsConfig → Result Error Text
tls_server_name is_dns_name c = elim c.server_name [
  | none ↦ err (anyhow (codes "outer_tls.server_name is required when outer TLS is enabled"))
  | some name ↦
      if is_dns_name name
      then ok name
      else err (anyhow (codes "outer_tls.server_name is not a valid DNS name"))
]

module _ (N : Noise) (is_dns_name : Text → Bool) where
  open N use {TransportState}

  unfoldable pub secure_remote : OuterTlsConfig → Text → Attempted → Exec Remote Error (Unit {0})
  unfolding reach tls_server_name
  secure_remote c elapsed tls =
      if c.enabled
      then (lift (tls_server_name is_dns_name c) >>= λ name.
          reach (codes "outer TLS handshake timed out") elapsed tls)
      else pure tt

  unfoldable pub handle_local :
      Host → ClientConfig → Departure → Patience → Exec Remote Error TransportState
  unfolding secure_remote reach
  handle_local H config d patience = do
    fail_if d.shutting_down (anyhow (codes "shutdown requested"))
    setup (codes "local TCP nodelay setup failed") (map_err anyhow d.local_nodelay)
    setup (codes "local TCP keepalive setup failed") (enable_tcp_keepalive d.local_keepalive)
    reach (codes "remote connect timed out") patience.elapsed d.connecting
    setup (codes "remote TCP nodelay setup failed") (map_err anyhow d.remote_nodelay)
    setup (codes "remote TCP keepalive setup failed") (enable_tcp_keepalive d.remote_keepalive)
    secure_remote config.outer_tls patience.elapsed d.tls
    run_noise N H config patience
