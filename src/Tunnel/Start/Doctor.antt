-- ===== src/Tunnel/Start/Doctor.antt =====
-- The `doctor` commands, and `verify_remote_noise` of crates/secure-tunnel-client/src/main.rs.
pub mod Verified
pub mod Healthy
pub mod Ready
use secure_tunnel.Prelude.{
  ℕ, List, [], ◌∷◌, ◌++◌, Option, none, some, Bool, true, false, if◌then◌else◌, Text, codes, Bytes,
  Result, ok, err, map_err,
}
use secure_tunnel.Prelude.Exec.{Exec, pure, lift, modify, ◌>>=◌, ◌>>◌}
use secure_tunnel.Protocol.Noise.{Noise}
use secure_tunnel.Config.Values.{PathBuf, SocketAddr}
use secure_tunnel.Config.Client
use secure_tunnel.Config.Server
use secure_tunnel.Config.Client.{ClientConfig}
use secure_tunnel.Config.Server.{ServerConfig, AuthorisedClient}
use secure_tunnel.Tunnel.Io.{Error, anyhow, context, enable_tcp_keepalive, Input, Output}
use secure_tunnel.Tunnel.Keys.{
  decode_public_key, read_private_key, read_server_private_keys, enforce_config_permissions,
}
use secure_tunnel.Tunnel.OuterTls.{Tls, tls_connector, tls_acceptor}
use secure_tunnel.Tunnel.Egress.{Patience, Remote, complete_noise_handshake}
use secure_tunnel.Tunnel.Egress.Departing.{tls_server_name}
use secure_tunnel.Tunnel.Start.{World, Refusal, refused, when_enabled, load_client, load_server}

-- Whether an attempt comes before its timeout, and what it yields.
abbrev pub Attempt : Type 0
Attempt = Bool × Result Text (Input × Output)

pub record Reaching : Type 0 where
  pub connecting : Attempt
  pub nodelay : Result Text (Unit {0})
  pub keepalive : Result Text (Unit {0})
  pub tls : Attempt
  pub patience : Patience

abbrev pub reach_in_time : Text → Text → Attempt → Exec Remote Error (Unit {0})
reach_in_time text elapsed (false, result) o = (err (text ∷ elapsed ∷ []), o)
reach_in_time text elapsed (true, err e) o = (err (anyhow e), o)
reach_in_time text elapsed (true, ok (i, out)) o =
    (ok tt, record o { incoming = i; outgoing = out })

module _ (N : Noise) (is_dns_name : Text → Bool) (T : Tls) where
  abbrev pub secure : Client.OuterTlsConfig → Reaching → Exec Remote Error (Unit {0})
  secure config r =
      if config.enabled
      then (lift (tls_connector T config) >>= λ connector.
          lift (tls_server_name is_dns_name config) >>= λ name.
          reach_in_time (codes "outer TLS handshake timed out") r.patience.elapsed r.tls)
      else pure tt

  unfoldable pub verify_remote_noise :
      ClientConfig → Bytes → Bytes → Reaching → Exec Remote Error (Unit {0})
  verify_remote_noise config private server r = do
    reach_in_time (codes "remote connect timed out") r.patience.elapsed r.connecting
    lift (map_err anyhow r.nodelay)
    lift (enable_tcp_keepalive r.keepalive)
    secure config.outer_tls r
    session ← complete_noise_handshake N private server r.patience
    pure tt

-- What a `doctor` has printed, and the stream to the server.
pub record Examination : Type 0 where
  pub printed : List Text
  pub remote : Remote

abbrev pub print : {E : Type 0} → Text → Exec Examination (Refusal E) (Unit {0})
print line = modify (λ x. record x { printed = x.printed ++ (line ∷ []) })

abbrev pub check : {E A : Type 0} → Result Error A → Exec Examination (Refusal E) A
check result = lift (map_err refused result)

abbrev pub on_remote : {E A : Type 0} → Exec Remote Error A → Exec Examination (Refusal E) A
on_remote m x = (map_err refused (m x.remote).0, record x { remote = (m x.remote).1 })

-- `with_context` on each of the clients.
abbrev pub check_clients : World → List AuthorisedClient → Result Error (Unit {0})
check_clients W [] = ok tt
check_clients W (c ∷ cs) = next (decode_public_key W.host c.public_key) (check_clients W cs)
  where
    next : Result Error Bytes → Result Error (Unit {0}) → Result Error (Unit {0})
    next (ok key) rest = rest
    next (err e) rest = err ((codes "invalid key for " ++ c.name) ∷ e)

module _ (W : World) where
  open W use {host, tls}

  unfoldable pub doctor_client :
      (N : Noise) (is_dns_name : Text → Bool)
      → Reaching
      → PathBuf
      → Exec Examination (Refusal Client.ConfigError) (Unit {0})
  doctor_client N is_dns_name r path = do
    check (enforce_config_permissions host path)
    config ← lift (load_client W path)
    private ← check (read_private_key host config.private_key_file)
    server ← check (decode_public_key host config.server_public_key)
    print (codes "[ok] configuration valid")
    print (codes "[ok] client private key readable with protected permissions")
    print (codes "[ok] pinned server identity configured")
    if config.outer_tls.enabled
        then print (codes "[ok] outer TLS 1.3 trust roots and server name configured")
        else pure tt
    check (map_err anyhow (W.bind config.listen_address))
    print (codes "[ok] local listener available")
    on_remote (verify_remote_noise N is_dns_name tls config private server r)
    print (codes "[ok] remote tunnel reachable and pinned Noise identity authenticated")

  -- `connected` is what connecting to the destination comes to.
  unfoldable pub doctor_server :
      Result Text (Unit {0}) → PathBuf → Exec Examination (Refusal Server.ConfigError) (Unit {0})
  doctor_server connected path = do
    check (enforce_config_permissions host path)
    config ← lift (load_server W path)
    keys ← check (read_server_private_keys host config.identity)
    acceptor ←
        check (when_enabled config.outer_tls.enabled (tls_acceptor tls host config.outer_tls))
    check (check_clients W config.authorized_clients)
    check (map_err anyhow (W.bind config.listen_address))
    check (context (codes "compatibility destination unavailable") (map_err anyhow connected))
    print (codes "[ok] configuration valid")
    print (codes "[ok] server private key readable with protected permissions")
    print (codes "[ok] authorised client keys configured")
    print (codes "[ok] listen socket and compatibility destination available")
