-- ===== src/Tunnel/Start.antt =====
-- `serve` of crates/secure-tunnel-client/src/main.rs and crates/secure-tunnel-server/src/main.rs from
-- the command to its loop, and `load` of the two configurations.
pub mod Bound
pub mod Doctor
use secure_tunnel.Prelude.{
  ℕ, List, [], ◌∷◌, ◌++◌, Option, none, some, Bool, true, false, if◌then◌else◌, Text, codes, Result,
  ok, err, map_err,
}
use secure_tunnel.Prelude.Exec.{Exec, pure, lift, ◌>>=◌, ◌>>◌}
use secure_tunnel.Config.Values.{PathBuf, SocketAddr}
use secure_tunnel.Config.Client
use secure_tunnel.Config.Server
use secure_tunnel.Config.Client.{ClientConfig}
use secure_tunnel.Config.Server.{ServerConfig}
use secure_tunnel.Tunnel.Io.{Error, anyhow, context}
use secure_tunnel.Tunnel.Keys.{Host, enforce_private_permissions, enforce_config_permissions}
use secure_tunnel.Tunnel.OuterTls.{Tls, tls_connector, tls_acceptor}
use secure_tunnel.Tunnel.Serve.{Event, Serving, serving, serve_loop}

-- What the programs find when they start.
pub record World : Type 1 where
  pub host : Host
  pub tls : Tls
  pub parse_client : Text → Result Text ClientConfig
  pub parse_server : Text → Result Text ServerConfig
  pub show_address : SocketAddr → Text
  pub bind : SocketAddr → Result Text (Unit {0})
  pub local_addr : SocketAddr → Result Text (Unit {0})

-- The addresses at which the process has listened.
abbrev pub Bound : Type 0
Bound = List SocketAddr

-- An error of the run, or of the configuration, which keeps its own messages.
pub data Refusal (E : Type 0) : Type 0 where
  refused : Error → Refusal E
  invalid : E → Refusal E

abbrev pub refusing : {E A : Type 0} → Result Error A → Exec Bound (Refusal E) A
refusing result = lift (map_err refused result)

abbrev bound_to :
    {E : Type 0}
    → (Result Error (Unit {0}) → Result Error (Unit {0}))
    → SocketAddr
    → Result Text (Unit {0})
    → Exec Bound (Refusal E) (Unit {0})
bound_to described address (ok u) bound = (ok tt, address ∷ bound)
bound_to described address (err text) bound =
    (map_err refused (described (err (anyhow text))), bound)

abbrev parsed_by : {E C : Type 0} → (Text → Result E C) → Result Error Text → Result (Refusal E) C
parsed_by from_toml (ok text) = map_err invalid (from_toml text)
parsed_by from_toml (err e) = err (refused e)

-- `enabled.then(|| connector(…)).transpose()`
abbrev pub when_enabled : {A : Type 0} → Bool → Result Error A → Result Error (Option A)
when_enabled false result = ok none
when_enabled true (ok a) = ok (some a)
when_enabled true (err e) = err e

module _ (W : World) where
  open W use {host, tls}

  -- `TcpListener::bind`; `described` is what the program does with its error.
  abbrev pub listen :
      {E : Type 0}
      → (Result Error (Unit {0}) → Result Error (Unit {0}))
      → SocketAddr
      → Exec Bound (Refusal E) (Unit {0})
  listen described address = bound_to described address (W.bind address)

  unfoldable pub load_client : PathBuf → Result (Refusal Client.ConfigError) ClientConfig
  load_client path = parsed_by (Client.from_toml W.parse_client) (
      context (codes "could not read client configuration " ++ path)
        (map_err anyhow (host.read_to_string path)))

  unfoldable pub load_server : PathBuf → Result (Refusal Server.ConfigError) ServerConfig
  load_server path = parsed_by (Server.from_toml W.parse_server) (
      context (codes "could not read server configuration " ++ path)
        (map_err anyhow (host.read_to_string path)))

  unfoldable pub start_client : PathBuf → Exec Bound (Refusal Client.ConfigError) ClientConfig
  start_client path = do
    refusing (enforce_config_permissions host path)
    config ← lift (load_client path)
    refusing (enforce_private_permissions host config.private_key_file)
    connector ←
        refusing (when_enabled config.outer_tls.enabled (tls_connector tls config.outer_tls))
    listen
        (context (codes "could not bind local listener " ++ W.show_address config.listen_address))
        config.listen_address
    refusing (map_err anyhow (W.local_addr config.listen_address))
    pure config

  unfoldable pub enforce_all : List PathBuf → Result Error (Unit {0})
  enforce_all [] = ok tt
  enforce_all (path ∷ paths) = checked (enforce_private_permissions host path) (enforce_all paths)
    where
      checked : Result Error (Unit {0}) → Result Error (Unit {0}) → Result Error (Unit {0})
      checked (ok u) rest = rest
      checked (err e) rest = err e

  unfoldable pub start_server : PathBuf → Exec Bound (Refusal Server.ConfigError) ServerConfig
  start_server path = do
    refusing (enforce_config_permissions host path)
    config ← lift (load_server path)
    refusing (
        enforce_all
          (config.identity.private_key_file ∷ config.identity.additional_private_key_files))
    acceptor ←
        refusing (when_enabled config.outer_tls.enabled (tls_acceptor tls host config.outer_tls))
    listen (λ result. result) config.listen_address
    refusing (map_err anyhow (W.local_addr config.listen_address))
    pure config

  -- The whole of `serve`, with what happens while it runs.
  pub serve_client : PathBuf → List Event → Exec Bound (Refusal Client.ConfigError) Serving
  serve_client path events = do
    config ← start_client path
    pure (serve_loop events (serving config.limits.max_connections))

  pub serve_server : PathBuf → List Event → Exec Bound (Refusal Server.ConfigError) Serving
  serve_server path events = do
    config ← start_server path
    pure (serve_loop events (serving config.limits.max_connections))
