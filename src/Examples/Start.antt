-- ===== src/Examples/Start.antt =====
-- A client that is examined by `doctor` and then started.
use secure_tunnel.Prelude.{
  ℕ, ◌≡◌, ◌⊎◌, refl, ap, [], ◌∷◌, none, some, true, false, trim, codes, ok, err,
}
use secure_tunnel.Config.Values.{SocketAddr}
use secure_tunnel.Config.Client
use secure_tunnel.Config.Client.{ClientConfig}
use secure_tunnel.Tunnel.Io.{silent}
use secure_tunnel.Tunnel.Keys.{enforce_config_permissions, enforce_sensitive_permissions}
use secure_tunnel.Tunnel.OuterTls.{Tls, tls_connector}
use secure_tunnel.Tunnel.Egress.{Remote, complete_noise_handshake}
use secure_tunnel.Tunnel.Serve.{signalled}
use secure_tunnel.Tunnel.Start.{World, load_client, start_client, serve_client}
use secure_tunnel.Tunnel.Start.Bound.{IsChecked, serve_client-IsChecked}
use secure_tunnel.Tunnel.Start.Doctor.{Reaching, Examination, verify_remote_noise, doctor_client}
use secure_tunnel.Tunnel.Start.Doctor.Healthy.{doctor_client-start_client}
use secure_tunnel.Tunnel.Meeting.{patient, remote, egress_meets}
use secure_tunnel.Examples.Ik.{ik, ik_channel, ik_agreed, ik_agreement}
use secure_tunnel.Examples.Handshake.{key}
use secure_tunnel.Examples.Settings.{client_config, server_config}
use secure_tunnel.Examples.Meeting.{laptop, own_key_read, pinned_read, elapsed}

abbrev pub tls : Tls
tls = record {
  Certificate = ℕ;
  PrivateKey = ℕ;
  native_certificates = 1 ∷ 2 ∷ [];
  native_errors = [];
  show_errors = λ errors. [];
  open_file = λ path. ok (3 ∷ []);
  certificates_of = λ bytes. ok bytes;
  private_key_of = λ bytes. ok none;
  is_parsable = λ certificate. true;
  with_tls13 = ok tt;
  with_single_cert = λ certificates key. ok tt;
}

abbrev pub world : World
world = record {
  host = laptop;
  tls = tls;
  parse_client = λ text. ok client_config;
  parse_server = λ text. ok server_config;
  show_address = λ address. [];
  bind = λ address. ok tt;
  local_addr = λ address. ok tt;
}

protected : enforce_config_permissions laptop (codes "client.toml") ≡ ok tt
unfolding enforce_config_permissions enforce_sensitive_permissions
protected = refl

loads : load_client world (codes "client.toml") ≡ ok client_config
unfolding load_client Client.from_toml Client.validate trim
loads = refl

abbrev pub reply_stream : Remote
reply_stream = remote (0 ∷ 32 ∷ key 1) [] silent false

abbrev reaching : Reaching
reaching = record {
  connecting = (true, ok (reply_stream.incoming, reply_stream.outgoing));
  nodelay = ok tt;
  keepalive = ok tt;
  tls = (false, err []);
  patience = patient elapsed;
}

meets : (complete_noise_handshake ik (key 5) (key 1) (patient elapsed) reply_stream).0 ≡ ok (0, 0)
unfolding ik_agreement ik_agreed
meets =
    ap (λ p. p.0)
      (egress_meets ik laptop ik_channel (λ key. key) (key 5) (key 1)
        (ik_agreement.agrees (key 5) (key 1) refl refl) elapsed [] silent false)

verified :
    (verify_remote_noise ik
      (λ name. true)
      tls
      client_config
      (key 5)
      (key 1)
      reaching
      reply_stream).0
    ≡ ok tt
unfolding verify_remote_noise
verified = rw (meets, verify_remote_noise) refl

abbrev pub examination : Examination
examination = record { printed = []; remote = reply_stream }

healthy :
    (doctor_client world ik (λ name. true) reaching (codes "client.toml") examination).0 ≡ ok tt
unfolding doctor_client
healthy = rw (protected, loads, own_key_read, pinned_read, verified, doctor_client) refl

doctor_client-start_client_example :
    (config : ClientConfig) × (load_client world (codes "client.toml") ≡ ok config)
    × (start_client world (codes "client.toml") [] ≡ (ok config, config.listen_address ∷ []))
doctor_client-start_client_example =
    doctor_client-start_client world ik (λ name. true) reaching (codes "client.toml") examination
      (doctor_client world ik (λ name. true) reaching (codes "client.toml") examination).1
      (ap
        (λ r.
          (r, (doctor_client world ik (λ name. true) reaching (codes "client.toml") examination).1))
        healthy)
      (λ address. refl) []

serve_client-IsChecked_example :
    ((serve_client world (codes "client.toml") (signalled (ok tt) ∷ []) []).1 ≡ [])
    ⊎ ((address : SocketAddr) × ((serve_client world
            (codes "client.toml")
            (signalled (ok tt) ∷ [])
            []).1
          ≡ address ∷ [])
        × IsChecked world (codes "client.toml") address)
serve_client-IsChecked_example =
    serve_client-IsChecked world (codes "client.toml") (signalled (ok tt) ∷ [])

trusts :
    tls_connector tls
      (record client_config.outer_tls { additional_ca_file = some (codes "ca.pem") })
    ≡ ok (1 ∷ 2 ∷ 3 ∷ [])
unfolding tls_connector
trusts = refl
