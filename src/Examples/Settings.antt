-- ===== src/Examples/Settings.antt =====
-- Concrete configurations and key files, and one connection to the server.
use secure_tunnel.Prelude.{◌≡◌, ◌↔◌, ◌⊎◌, [], ◌∷◌, ◌++◌, none, some, false, Text, codes, Result, ok}
use secure_tunnel.Protocol.Preface.{preface_bytes}
use secure_tunnel.Protocol.Server.{ServerReply}
use secure_tunnel.Config.Values.{v4}
use secure_tunnel.Config.Client
use secure_tunnel.Config.Client.{ClientConfig}
use secure_tunnel.Config.Client.Validity as ClientValidity
use secure_tunnel.Config.Server
use secure_tunnel.Config.Server.{ServerConfig}
use secure_tunnel.Config.Server.Validity as ServerValidity
use secure_tunnel.Tunnel.Io.{ended}
use secure_tunnel.Tunnel.Keys.{Host, regular_file, read_server_private_keys}
use secure_tunnel.Tunnel.Keys.Reading.{AreKeysOf, read_server_private_keys_iff}
use secure_tunnel.Tunnel.Ingress.{Runtime, Outer, in_time, run_noise, Arrival, handle_outer}
use secure_tunnel.Tunnel.Ingress.Contact.{IsAdmitted, run_noise-IsAdmitted}
use secure_tunnel.Tunnel.Ingress.Arriving.{handle_outer-IsAdmitted}
use secure_tunnel.Examples.Toy.{toy}
use secure_tunnel.Examples.Handshake.{key, hello}

abbrev pub client_config : ClientConfig
client_config = record {
  listen_address = record { ip = v4 127 0 0 1; port = 7000 };
  remote_address = codes "tunnel.example:443";
  private_key_file = codes "keys/client";
  server_public_key = codes "AAAA";
  outer_tls = record { enabled = false; server_name = none; additional_ca_file = none };
  timeouts = Client.default_timeouts;
  limits = Client.default_limits;
}

abbrev pub server_config : ServerConfig
server_config = record {
  listen_address = record { ip = v4 0 0 0 0; port = 443 };
  destination_address = record { ip = v4 127 0 0 1; port = 22 };
  identity = record {
    private_key_file = codes "keys/a";
    additional_private_key_files = codes "keys/b" ∷ [];
  };
  authorized_clients = record { name = codes "laptop"; public_key = codes "AAAA" } ∷ [];
  outer_tls = Server.default_outer_tls;
  limits = Server.default_limits;
  timeouts = Server.default_timeouts;
}

from_toml-IsValid_example : (Client.from_toml (λ text. ok client_config) [] ≡ ok client_config) ↔ (
    Path (Result Text ClientConfig) (ok client_config) (ok client_config)
    × ClientValidity.IsValid client_config)
from_toml-IsValid_example =
    ClientValidity.from_toml-IsValid (λ text. ok client_config) [] client_config

from_toml_iff_example : (Server.from_toml (λ text. ok server_config) [] ≡ ok server_config) ↔ (
    Path (Result Text ServerConfig) (ok server_config) (ok server_config)
    × ServerValidity.IsValid server_config)
from_toml_iff_example = ServerValidity.from_toml_iff (λ text. ok server_config) [] server_config

-- Every path is a protected regular file, and every text decodes to the same key.
abbrev pub host : Host
host = record {
  symlink_metadata = λ path. ok (record { file_type = regular_file; mode = 0o100600 });
  read_to_string = λ path. ok (codes "AAAA");
  decode_base64 = λ text. ok (key 5);
}

read_server_private_keys_iff_example :
    (read_server_private_keys host server_config.identity ≡ ok (key 5 ∷ key 5 ∷ []))
    ↔ AreKeysOf host (codes "keys/a" ∷ codes "keys/b" ∷ []) (key 5 ∷ key 5 ∷ [])
read_server_private_keys_iff_example =
    read_server_private_keys_iff host server_config.identity (key 5 ∷ key 5 ∷ [])

abbrev pub runtime : Runtime
runtime = record {
  elapsed = codes "deadline has elapsed";
  preface_wait = in_time;
  frame_wait = in_time;
  destination_wait = in_time;
  connected = ok tt;
  nodelay = ok tt;
  keepalive = ok tt;
}

abbrev pub connection : Outer
connection = record {
  incoming = record { bytes = preface_bytes ++ hello; ending = ended (codes "end") };
  outgoing = record { written = []; shut = false; faults = [] };
  handshake_succeeded = false;
  contacted = false;
}

run_noise-IsAdmitted_example :
    (((run_noise toy host server_config runtime connection).1.outgoing ≡ connection.outgoing)
      × ((run_noise toy host server_config runtime connection).1.handshake_succeeded ≡ false)
      × ((run_noise toy host server_config runtime connection).1.contacted ≡ false))
    ⊎ ((reply : ServerReply toy) × IsAdmitted toy host server_config connection.incoming reply)
run_noise-IsAdmitted_example = run_noise-IsAdmitted toy host server_config runtime connection

-- The same connection behind outer TLS.
abbrev pub arrival : Arrival
arrival = record {
  shutting_down = false;
  nodelay = ok tt;
  keepalive = ok tt;
  tls = some (in_time, ok (connection.incoming, connection.outgoing));
}

handle_outer-IsAdmitted_example :
    (((handle_outer toy host server_config arrival runtime connection).1.handshake_succeeded
        ≡ false)
      × ((handle_outer toy host server_config arrival runtime connection).1.contacted ≡ false))
    ⊎ ((reply : ServerReply toy) × IsAdmitted toy host server_config connection.incoming reply)
handle_outer-IsAdmitted_example =
    handle_outer-IsAdmitted toy host server_config arrival runtime connection
