-- ===== src/Config/Client.antt =====
-- crates/secure-tunnel-client/src/config.rs.
pub mod Validity
use secure_tunnel.Prelude.{
  ℕ, Option, some, none, Bool, true, false, not, ◌&&◌, ◌||◌, ◌==◌, ltb, is_empty, trim, Text,
  Result, ok, err, map_err, bail_if, ◌>>=◌, ◌>>◌,
}
use secure_tunnel.Protocol.Error.{max_concurrent_connections}
use secure_tunnel.Config.Values.{SocketAddr, is_loopback, PathBuf}

pub record OuterTlsConfig : Type 0 where
  pub enabled : Bool
  pub server_name : Option Text
  pub additional_ca_file : Option PathBuf

pub record Timeouts : Type 0 where
  pub connect_seconds : ℕ
  pub handshake_seconds : ℕ
  pub idle_seconds : ℕ

abbrev pub default_timeouts : Timeouts
default_timeouts = record { connect_seconds = 10; handshake_seconds = 10; idle_seconds = 600 }

pub record Limits : Type 0 where
  pub max_connections : ℕ

abbrev pub default_limits : Limits
default_limits = record { max_connections = 32 }

-- The sections of one field each are that field.
pub record ClientConfig : Type 0 where
  pub listen_address : SocketAddr
  pub remote_address : Text
  pub private_key_file : PathBuf
  pub server_public_key : Text
  pub outer_tls : OuterTlsConfig
  pub timeouts : Timeouts
  pub limits : Limits

-- The messages of `validate`, in its order; `invalid_toml` is the parser's error.
pub data ConfigError : Type 0 where
  invalid_toml : Text → ConfigError
  listener_not_loopback : SocketAddr → ConfigError
  empty_remote_address : ConfigError
  missing_server_public_key : ConfigError
  missing_server_name : ConfigError
  zero_timeout : ConfigError
  bad_connection_limit : ConfigError

-- `server_name.as_deref().is_none_or(|server_name| server_name.trim().is_empty())`
abbrev pub lacks_name : Option Text → Bool
lacks_name none = true
lacks_name (some name) = is_empty (trim name)

unfoldable pub validate : ClientConfig → Result ConfigError (Unit {0})
validate c = do
  bail_if (not (is_loopback c.listen_address.ip)) (listener_not_loopback c.listen_address)
  bail_if (is_empty (trim c.remote_address)) empty_remote_address
  bail_if (is_empty (trim c.server_public_key)) missing_server_public_key
  bail_if (c.outer_tls.enabled && lacks_name c.outer_tls.server_name) missing_server_name
  bail_if
      (c.timeouts.connect_seconds == 0
        || c.timeouts.handshake_seconds == 0
        || c.timeouts.idle_seconds == 0)
      zero_timeout
  bail_if (c.limits.max_connections == 0 || ltb max_concurrent_connections c.limits.max_connections)
      bad_connection_limit

-- The TOML parser, which is not part of the repository, is an argument.
unfoldable pub from_toml :
    (Text → Result Text ClientConfig) → Text → Result ConfigError ClientConfig
from_toml parse text = do config ← map_err invalid_toml (parse text); validate config; ok config
