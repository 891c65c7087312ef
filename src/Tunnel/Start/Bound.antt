-- ===== src/Tunnel/Start/Bound.antt =====
-- Where a process listens, and what it has checked before.
use secure_tunnel.Prelude.{◌≡◌, ◌⊎◌, refl, inl, inr, List, [], ◌∷◌, Result-cases, ok, arith}
use secure_tunnel.Config.Values.{PathBuf, SocketAddr, IsLoopback}
use secure_tunnel.Config.Client.{ClientConfig}
use secure_tunnel.Config.Client.Validity as ClientValidity
use secure_tunnel.Tunnel.Keys.{enforce_private_permissions, enforce_config_permissions}
use secure_tunnel.Tunnel.OuterTls.{tls_connector}
use secure_tunnel.Tunnel.Serve.{Event}
use secure_tunnel.Tunnel.Start.{World, Bound, when_enabled, load_client, start_client, serve_client}

-- The client listens at one address at most, and then its files were protected and its configuration
-- valid.
pub record IsChecked (W : World) (path : PathBuf) (address : SocketAddr) : Type 0 where
  pub config : ClientConfig
  pub protected : enforce_config_permissions W.host path ≡ ok tt
  pub loaded : load_client W path ≡ ok config
  pub key_protected : enforce_private_permissions W.host config.private_key_file ≡ ok tt
  pub valid : ClientValidity.IsValid config
  pub listens : address ≡ config.listen_address
  pub loopback : IsLoopback address.ip

load_client-IsValid :
    (W : World) (path : PathBuf) (config : ClientConfig)
    → load_client W path ≡ ok config
    → ClientValidity.IsValid config
unfolding load_client
load_client-IsValid W path config e = elim (Result-cases (W.host.read_to_string path)) [
  | inr (x, h) ↦ absurd (ground arith)
  | inl (text, h) ↦
      ((ClientValidity.from_toml-IsValid W.parse_client text config).0 (ground arith)).1
]

found :
    (W : World) (path : PathBuf) (config : ClientConfig)
    → enforce_config_permissions W.host path ≡ ok tt
    → load_client W path ≡ ok config
    → enforce_private_permissions W.host config.private_key_file ≡ ok tt
    → IsChecked W path config.listen_address
found W path config a b c =
    let valid = load_client-IsValid W path config b in
    record {
      config = config;
      protected = a;
      loaded = b;
      key_protected = c;
      valid = valid;
      listens = refl;
      loopback = valid.loopback;
    }

start_client-IsChecked :
    (W : World) (path : PathBuf) (bound : Bound)
    → ((start_client W path bound).1 ≡ bound)
      ⊎ ((address : SocketAddr) × ((start_client W path bound).1 ≡ address ∷ bound)
          × IsChecked W path address)
unfolding start_client
start_client-IsChecked W path bound = elim (Result-cases (enforce_config_permissions W.host path)) [
  | inr (e, a) ↦ rw (a, start_client) (inl refl)
  | inl (u, a) ↦ elim (Result-cases (load_client W path)) [
    | inr (e, b) ↦ rw (a, b, start_client) (inl refl)
    | inl (config, b) ↦
        elim (Result-cases (enforce_private_permissions W.host config.private_key_file)) [
          | inr (e, c) ↦ rw (a, b, c, start_client) (inl refl)
          | inl (v, c) ↦
              let checked = found W path config a b c in
              elim (Result-cases
                (when_enabled config.outer_tls.enabled (tls_connector W.tls config.outer_tls))) [
                  | inr (e, d) ↦ rw (a, b, c, d, start_client) (inl refl)
                  | inl (connector, d) ↦ elim (Result-cases (W.bind config.listen_address)) [
                    | inr (e, f) ↦ rw (a, b, c, d, f, start_client) (inl refl)
                    | inl (w, f) ↦ elim (Result-cases (W.local_addr config.listen_address)) [
                      | inr (e, g) ↦
                          rw (a, b, c, d, f, g, start_client)
                            (inr (config.listen_address, refl, checked))
                      | inl (x, g) ↦
                          rw (a, b, c, d, f, g, start_client)
                            (inr (config.listen_address, refl, checked))
                    ]
                  ]
                ]
        ]
  ]
]

-- Whatever the client's `serve` finds and whatever happens while it runs: it has either listened
-- nowhere, or at one address, that of its configuration, which is a loopback address; and then the
-- permission checks of the configuration file and of the private key file passed, and the
-- configuration is valid.
pub serve_client-IsChecked :
    (W : World) (path : PathBuf) (events : List Event)
    → ((serve_client W path events []).1 ≡ [])
      ⊎ ((address : SocketAddr) × ((serve_client W path events []).1 ≡ address ∷ [])
          × IsChecked W path address)
unfolding serve_client
serve_client-IsChecked W path events = elim (Result-cases (start_client W path []).0) [
  | inl (config, h) ↦ rw h (start_client-IsChecked W path [])
  | inr (e, h) ↦ rw h (start_client-IsChecked W path [])
]
