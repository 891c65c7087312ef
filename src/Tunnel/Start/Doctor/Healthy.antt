-- ===== src/Tunnel/Start/Doctor/Healthy.antt =====
-- What a `doctor` that finds nothing wrong says of `serve`.
use secure_tunnel.Prelude.{
  ◌≡◌, refl, ap, List, ◌∷◌, Option, Bool, if◌then◌else◌, Text, codes, Bytes, ok, map_err,
  map_err-ok,
}
use secure_tunnel.Prelude.Exec.{Exec, pure, lift, bind-ok, ◌>>=◌, ◌>>◌}
use secure_tunnel.Protocol.Noise.{Noise}
use secure_tunnel.Config.Values.{PathBuf, SocketAddr}
use secure_tunnel.Config.Client
use secure_tunnel.Config.Client.{ClientConfig, OuterTlsConfig}
use secure_tunnel.Tunnel.Io.{anyhow}
use secure_tunnel.Tunnel.Keys.{read_private_key, enforce_config_permissions, decode_public_key}
use secure_tunnel.Tunnel.OuterTls.{tls_connector}
use secure_tunnel.Tunnel.Start.{
  World, Bound, Refusal, refused, when_enabled, load_client, start_client,
}
use secure_tunnel.Tunnel.Start.Doctor.{
  Reaching, print, check, on_remote, Examination, verify_remote_noise, doctor_client,
}
use secure_tunnel.Tunnel.Start.Doctor.Verified.{read-enforced, verify-connector}

module _ (W : World) (N : Noise) (is_dns_name : Text → Bool) (r : Reaching) where
  abbrev Examining : Type 0
  Examining = Exec Examination (Refusal Client.ConfigError) (Unit {0})

  module _ (config : ClientConfig) (private server : Bytes) where
    abbrev remote_checked : Examining
    remote_checked =
        on_remote (verify_remote_noise N is_dns_name W.tls config private server r)
        >> print (codes "[ok] remote tunnel reachable and pinned Noise identity authenticated")

    abbrev listener_checked : Examining
    listener_checked = print (codes "[ok] local listener available") >> remote_checked

    abbrev bound : Examining
    bound = check (map_err anyhow (W.bind config.listen_address)) >> listener_checked

    abbrev announce_tls : Examining
    announce_tls =
        if config.outer_tls.enabled
        then print (codes "[ok] outer TLS 1.3 trust roots and server name configured")
        else pure tt

    abbrev announced : Examining
    announced = announce_tls >> bound

    abbrev identified : Examining
    identified = print (codes "[ok] pinned server identity configured") >> announced

    abbrev readable : Examining
    readable =
        print (codes "[ok] client private key readable with protected permissions") >> identified

    abbrev configured : Examining
    configured = print (codes "[ok] configuration valid") >> readable

    -- What the part behind the keys has found out when it ends well.
    configured-ok :
        (x x' : Examination)
        → configured x ≡ (ok tt, x')
        → (W.bind config.listen_address ≡ ok tt)
          × (connector : Option (List W.tls.Certificate)) × (when_enabled config.outer_tls.enabled
                (tls_connector W.tls config.outer_tls)
              ≡ ok connector)
    configured-ok x x' e =
        let (u1, x1, p1, e1) =
          bind-ok (print (codes "[ok] configuration valid")) (λ u. readable) x x' tt e in
        let (u2, x2, p2, e2) =
          bind-ok (print (codes "[ok] client private key readable with protected permissions"))
            (λ u. identified) x1 x' tt e1 in
        let (u3, x3, p3, e3) =
          bind-ok (print (codes "[ok] pinned server identity configured")) (λ u. announced) x2 x' tt
            e2 in
        let (u4, x4, p4, e4) = bind-ok announce_tls (λ u. bound) x3 x' tt e3 in
        let (u5, x5, p5, e5) =
          bind-ok (check (map_err anyhow (W.bind config.listen_address))) (λ u. listener_checked) x4
            x' tt e4 in
        let (u6, x6, p6, e6) =
          bind-ok (print (codes "[ok] local listener available")) (λ u. remote_checked) x5 x' tt
            e5 in
        let (u7, x7, p7, e7) =
          bind-ok (on_remote (verify_remote_noise N is_dns_name W.tls config private server r))
            (λ u.
              print (codes "[ok] remote tunnel reachable and pinned Noise identity authenticated"))
            x6 x' tt e6 in
        let (connector, made) =
          verify-connector N is_dns_name W.tls config private server r x6.remote
            (verify_remote_noise N is_dns_name W.tls config private server r x6.remote).1
            (ap
              (λ a.
                (a, (verify_remote_noise N is_dns_name W.tls config private server r x6.remote).1))
              (map_err-ok refused
                (verify_remote_noise N is_dns_name W.tls config private server r x6.remote).0 tt
                (ap (λ p. p.0) p7))) in
        (
          map_err-ok anyhow (W.bind config.listen_address) tt (
              map_err-ok refused (map_err anyhow (W.bind config.listen_address)) tt
                (ap (λ p. p.0) p5)),
          connector,
          made,
        )

  abbrev pinned : ClientConfig → Bytes → Examining
  pinned config private =
      check (decode_public_key W.host config.server_public_key) >>= configured config private

  abbrev keyed : ClientConfig → Examining
  keyed config = check (read_private_key W.host config.private_key_file) >>= pinned config

  abbrev loading : PathBuf → Examining
  loading path = lift (load_client W path) >>= keyed

  -- When the client's `doctor` ends without an error, and asking a bound listener for its address does
  -- not fail, `serve` with the same file and in the same world starts: it comes to its loop, listening
  -- at the address of the configuration.
  pub doctor_client-start_client :
      (path : PathBuf) (x x' : Examination)
      → doctor_client W N is_dns_name r path x ≡ (ok tt, x')
      → ((address : SocketAddr) → W.local_addr address ≡ ok tt)
      → (before : Bound)
      → (config : ClientConfig) × (load_client W path ≡ ok config)
        × (start_client W path before ≡ (ok config, config.listen_address ∷ before))
  unfolding doctor_client start_client
  doctor_client-start_client path x x' e local before =
      let (u, x1, p1, e1) =
        bind-ok (check (enforce_config_permissions W.host path)) (λ u. loading path) x x' tt e in
      let (config, x2, p2, e2) = bind-ok (lift (load_client W path)) keyed x1 x' tt e1 in
      let (private, x3, p3, e3) =
        bind-ok (check (read_private_key W.host config.private_key_file)) (pinned config) x2 x' tt
          e2 in
      let (server, x4, p4, e4) =
        bind-ok (check (decode_public_key W.host config.server_public_key))
          (configured config private) x3 x' tt e3 in
      let (binds, connector, made) = configured-ok config private server x4 x' e4 in
      let protected =
        map_err-ok refused (enforce_config_permissions W.host path) tt (ap (λ p. p.0) p1) in
      let loaded = ap (λ p. p.0) p2 in
      let enforced = read-enforced W.host config.private_key_file private (
        map_err-ok refused (read_private_key W.host config.private_key_file) private
          (ap (λ p. p.0) p3)) in
      (
        config,
        loaded,
        rw (protected, loaded, enforced, made, binds, local config.listen_address, start_client)
            refl,
      )
