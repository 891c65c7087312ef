-- ===== src/Examples/Ready.antt =====
-- A server with one identity that is examined by `doctor` and then started.
use secure_tunnel.Prelude.{◌≡◌, refl, ap, [], ◌∷◌, trim, codes, ok}
use secure_tunnel.Protocol.Builder.{to_array32}
use secure_tunnel.Config.Values.{has_duplicate}
use secure_tunnel.Config.Server
use secure_tunnel.Config.Server.{ServerConfig}
use secure_tunnel.Tunnel.Keys.{
  read_server_private_keys, read_key_files, read_private_key, decode_public_key,
  enforce_config_permissions, enforce_sensitive_permissions,
}
use secure_tunnel.Tunnel.Start.{World, load_server, start_server}
use secure_tunnel.Tunnel.Start.Doctor.{check_clients, doctor_server}
use secure_tunnel.Tunnel.Start.Doctor.Ready.{doctor_server-start_server}
use secure_tunnel.Examples.Handshake.{key}
use secure_tunnel.Examples.Settings.{server_config}
use secure_tunnel.Examples.Meeting.{rotating}
use secure_tunnel.Examples.Start.{world, examination}

abbrev single : ServerConfig
single = record server_config {
  identity = record { private_key_file = codes "keys/a"; additional_private_key_files = [] };
}

abbrev server_world : World
server_world = record world { host = rotating; parse_server = λ text. ok single }

protected : enforce_config_permissions rotating (codes "server.toml") ≡ ok tt
unfolding enforce_config_permissions enforce_sensitive_permissions
protected = refl

loads : load_server server_world (codes "server.toml") ≡ ok single
unfolding load_server Server.from_toml Server.validate has_duplicate trim
loads = refl

keys_read : read_server_private_keys rotating single.identity ≡ ok (key 2 ∷ [])
unfolding read_server_private_keys read_key_files read_private_key enforce_sensitive_permissions
    to_array32 trim
keys_read = refl

clients_checked : check_clients server_world single.authorized_clients ≡ ok tt
unfolding decode_public_key to_array32 trim
clients_checked = refl

ready : (doctor_server server_world (ok tt) (codes "server.toml") examination).0 ≡ ok tt
unfolding doctor_server
ready = rw (protected, loads, keys_read, clients_checked, doctor_server) refl

doctor_server-start_server_example :
    (config : ServerConfig) × (load_server server_world (codes "server.toml") ≡ ok config)
    × (start_server server_world (codes "server.toml") [] ≡ (ok config, config.listen_address ∷ []))
doctor_server-start_server_example =
    doctor_server-start_server server_world (ok tt) (codes "server.toml") examination
      (doctor_server server_world (ok tt) (codes "server.toml") examination).1
      (ap (λ r. (r, (doctor_server server_world (ok tt) (codes "server.toml") examination).1))
        ready)
      (λ address. refl) []
