-- ===== src/Tunnel/Start/Doctor/Ready.antt =====
-- What a `doctor` of the server that finds nothing wrong says of `serve`.
use secure_tunnel.Prelude.{
  ◌≡◌, refl, ap, inl, inr, List, [], ◌∷◌, Result-cases, Text, codes, Bytes, Result, ok, map_err,
  map_err-ok, arith,
}
use secure_tunnel.Prelude.Exec.{Exec, lift, bind-ok, ◌>>=◌, ◌>>◌}
use secure_tunnel.Config.Values.{PathBuf, SocketAddr}
use secure_tunnel.Config.Server
use secure_tunnel.Config.Server.{ServerConfig}
use secure_tunnel.Tunnel.Io.{anyhow, context}
use secure_tunnel.Tunnel.Keys.{
  read_private_key, read_key_files, read_server_private_keys, enforce_config_permissions,
}
use secure_tunnel.Tunnel.OuterTls.{tls_acceptor}
use secure_tunnel.Tunnel.Start.{
  World, Bound, Refusal, refused, when_enabled, enforce_all, load_server, start_server,
}
use secure_tunnel.Tunnel.Start.Doctor.{Examination, print, check, check_clients, doctor_server}
use secure_tunnel.Tunnel.Start.Doctor.Verified.{read-enforced}

module _ (W : World) where
  -- Key files that were read have passed the permission checks.
  read_key_files-enforced :
      (paths : List PathBuf) (keys : List Bytes)
      → read_key_files W.host paths ≡ ok keys
      → enforce_all W paths ≡ ok tt
  unfolding read_key_files enforce_all
  read_key_files-enforced [] keys e = refl
  read_key_files-enforced (path ∷ paths) keys e =
      elim (Result-cases (read_private_key W.host path)) [
        | inr (x, h) ↦ absurd (ground arith)
        | inl (key, h) ↦ elim (Result-cases (read_key_files W.host paths)) [
          | inr (x, g) ↦ absurd (ground arith)
          | inl (rest, g) ↦
              rw (read-enforced W.host path key h, enforce_all)
                (read_key_files-enforced paths rest g)
        ]
      ]

  abbrev Examining : Type 0
  Examining = Exec Examination (Refusal Server.ConfigError) (Unit {0})

  module _ (connected : Result Text (Unit {0})) where
    abbrev printed : Examining
    printed =
        print (codes "[ok] configuration valid")
        >> (print (codes "[ok] server private key readable with protected permissions")
            >> (print (codes "[ok] authorised client keys configured")
                >> print (codes "[ok] listen socket and compatibility destination available")))

    abbrev reached : Examining
    reached =
        check (context (codes "compatibility destination unavailable") (map_err anyhow connected))
        >> printed

    abbrev bound : ServerConfig → Examining
    bound config = check (map_err anyhow (W.bind config.listen_address)) >> reached

    abbrev listed : ServerConfig → Examining
    listed config = check (check_clients W config.authorized_clients) >> bound config

    abbrev accepting : ServerConfig → Examining
    accepting config =
        check (when_enabled config.outer_tls.enabled (tls_acceptor W.tls W.host config.outer_tls))
        >>= λ acceptor. listed config

    abbrev keyed : ServerConfig → Examining
    keyed config =
        check (read_server_private_keys W.host config.identity) >>= λ keys. accepting config

    abbrev loading : PathBuf → Examining
    loading path = lift (load_server W path) >>= keyed

    -- When the server's `doctor` ends without an error, and asking a bound listener for its address
    -- does not fail, `serve` with the same file and in the same world starts: it comes to its loop,
    -- listening at the address of the configuration.
    pub doctor_server-start_server :
        (path : PathBuf) (x x' : Examination)
        → doctor_server W connected path x ≡ (ok tt, x')
        → ((address : SocketAddr) → W.local_addr address ≡ ok tt)
        → (before : Bound)
        → (config : ServerConfig) × (load_server W path ≡ ok config)
          × (start_server W path before ≡ (ok config, config.listen_address ∷ before))
    unfolding doctor_server start_server read_server_private_keys
    doctor_server-start_server path x x' e local before =
        let (u, x1, p1, e1) =
          bind-ok (check (enforce_config_permissions W.host path)) (λ u. loading path) x x' tt e in
        let (config, x2, p2, e2) = bind-ok (lift (load_server W path)) keyed x1 x' tt e1 in
        let (keys, x3, p3, e3) =
          bind-ok (check (read_server_private_keys W.host config.identity))
            (λ keys. accepting config) x2 x' tt e2 in
        let acceptor_made =
          when_enabled config.outer_tls.enabled (tls_acceptor W.tls W.host config.outer_tls) in
        let (acceptor, x4, p4, e4) =
          bind-ok (check acceptor_made) (λ acceptor. listed config) x3 x' tt e3 in
        let (v, x5, p5, e5) =
          bind-ok (check (check_clients W config.authorized_clients)) (λ u. bound config) x4 x' tt
            e4 in
        let (w, x6, p6, e6) =
          bind-ok (check (map_err anyhow (W.bind config.listen_address))) (λ u. reached) x5 x' tt
            e5 in
        let protected =
          map_err-ok refused (enforce_config_permissions W.host path) tt (ap (λ p. p.0) p1) in
        let loaded = ap (λ p. p.0) p2 in
        let enforced =
          read_key_files-enforced
            (config.identity.private_key_file ∷ config.identity.additional_private_key_files) keys
            (map_err-ok refused (read_server_private_keys W.host config.identity) keys
              (ap (λ p. p.0) p3)) in
        let made = map_err-ok refused acceptor_made acceptor (ap (λ p. p.0) p4) in
        let binds = map_err-ok anyhow (W.bind config.listen_address) tt (
          map_err-ok refused (map_err anyhow (W.bind config.listen_address)) tt
            (ap (λ p. p.0) p6)) in
        (
          config,
          loaded,
          rw (protected, loaded, enforced, made, binds, local config.listen_address, start_server)
              refl,
        )
