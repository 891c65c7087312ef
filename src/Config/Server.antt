-- ===== src/Config/Server.antt =====
-- crates/secure-tunnel-server/src/config.rs.
pub mod Validity
use secure_tunnel.Prelude.{
  ℕ, ◌+◌, List, [], ◌∷◌, Option, some, none, Bool, true, false, not, ◌&&◌, ◌||◌, ◌==◌, ltb, length,
  any, is_empty, trim, Text, Result, ok, err, map_err, bail_if, ◌>>=◌, ◌>>◌,
}
use secure_tunnel.Protocol.Error.{max_concurrent_connections, max_server_static_identities}
use secure_tunnel.Config.Values.{SocketAddr, is_loopback, PathBuf, has_duplicate}

pub record IdentityConfig : Type 0 where
  pub private_key_file : PathBuf
  pub additional_private_key_files : List PathBuf

pub record AuthorisedClient : Type 0 where
  pub name : Text
  pub public_key : Text

pub record OuterTlsConfig : Type 0 where
  pub enabled : Bool
  pub certificate_file : Option PathBuf
  pub private_key_file : Option PathBuf

abbrev pub default_outer_tls : OuterTlsConfig
default_outer_tls = record { enabled = false; certificate_file = none; private_key_file = none }

pub record Limits : Type 0 where
  pub max_connections : ℕ
  pub max_plaintext_record_bytes : ℕ

abbrev pub default_limits : Limits
default_limits = record { max_connections = 32; max_plaintext_record_bytes = 16384 }

pub record Timeouts : Type 0 where
  pub destination_connect_seconds : ℕ
  pub handshake_seconds : ℕ
  pub idle_seconds : ℕ

abbrev pub default_timeouts : Timeouts
default_timeouts = record {
  destination_connect_seconds = 10;
  handshake_seconds = 10;
  idle_seconds = 600;
}

-- The sections of one field each are that field.
pub record ServerConfig : Type 0 where
  pub listen_address : SocketAddr
  pub destination_address : SocketAddr
  pub identity : IdentityConfig
  pub authorized_clients : List AuthorisedClient
  pub outer_tls : OuterTlsConfig
  pub limits : Limits
  pub timeouts : Timeouts

-- The messages of `validate`, in its order; `invalid_toml` is the parser's error.
pub data ConfigError : Type 0 where
  invalid_toml : Text → ConfigError
  destination_not_loopback : SocketAddr → ConfigError
  no_authorised_client : ConfigError
  incomplete_client : ConfigError
  empty_key_path : ConfigError
  too_many_identities : ConfigError
  duplicate_key_files : ConfigError
  bad_limits : ConfigError
  missing_certificate_file : ConfigError
  missing_private_key_file : ConfigError
  zero_timeout : ConfigError

abbrev pub is_none {ℓ} : {A : Type ℓ} → Option A → Bool
is_none none = true
is_none (some a) = false

abbrev pub is_incomplete : AuthorisedClient → Bool
is_incomplete client = is_empty (trim client.name) || is_empty (trim client.public_key)

unfoldable pub validate : ServerConfig → Result ConfigError (Unit {0})
validate c = do
  bail_if (not (is_loopback c.destination_address.ip))
      (destination_not_loopback c.destination_address)
  bail_if (is_empty c.authorized_clients) no_authorised_client
  bail_if (any is_incomplete c.authorized_clients) incomplete_client
  bail_if
      (is_empty c.identity.private_key_file || any is_empty c.identity.additional_private_key_files)
      empty_key_path
  bail_if (ltb max_server_static_identities (1 + length c.identity.additional_private_key_files))
      too_many_identities
  bail_if (has_duplicate (c.identity.private_key_file ∷ []) c.identity.additional_private_key_files)
      duplicate_key_files
  bail_if
      (c.limits.max_connections == 0
        || ltb max_concurrent_connections c.limits.max_connections
        || not (c.limits.max_plaintext_record_bytes == 16384))
      bad_limits
  bail_if (c.outer_tls.enabled && is_none c.outer_tls.certificate_file) missing_certificate_file
  bail_if (c.outer_tls.enabled && is_none c.outer_tls.private_key_file) missing_private_key_file
  bail_if
      (c.timeouts.destination_connect_seconds == 0
        || c.timeouts.handshake_seconds == 0
        || c.timeouts.idle_seconds == 0)
      zero_timeout

-- The TOML parser, which is not part of the repository, is an argument.
unfoldable pub from_toml :
    (Text → Result Text ServerConfig) → Text → Result ConfigError ServerConfig
from_toml parse text = do config ← map_err invalid_toml (parse text); validate config; ok config
