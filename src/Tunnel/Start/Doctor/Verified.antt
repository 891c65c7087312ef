-- ===== src/Tunnel/Start/Doctor/Verified.antt =====
-- What `verify_remote_noise` has found out when it ends well.
use secure_tunnel.Prelude.{
  ◌≡◌, refl, ap, inl, inr, List, Option, none, some, Bool, true, false, Bool-cases, Result-cases,
  Text, codes, Bytes, Result, ok, err, map_err, arith,
}
use secure_tunnel.Prelude.Exec.{Exec, pure, lift, bind-ok, ◌>>=◌, ◌>>◌}
use secure_tunnel.Protocol.Noise.{Noise}
use secure_tunnel.Config.Values.{PathBuf}
use secure_tunnel.Config.Client.{ClientConfig, OuterTlsConfig}
use secure_tunnel.Tunnel.Io.{Error, anyhow, enable_tcp_keepalive}
use secure_tunnel.Tunnel.Keys.{
  Host, read_private_key, enforce_private_permissions, enforce_sensitive_permissions,
}
use secure_tunnel.Tunnel.OuterTls.{Tls, tls_connector}
use secure_tunnel.Tunnel.Egress.{Remote, complete_noise_handshake}
use secure_tunnel.Tunnel.Start.{when_enabled}
use secure_tunnel.Tunnel.Start.Doctor.{Reaching, reach_in_time, secure, verify_remote_noise}

pub read-enforced :
    (H : Host) (path : PathBuf) (key : Bytes)
    → read_private_key H path ≡ ok key
    → enforce_private_permissions H path ≡ ok tt
unfolding read_private_key enforce_private_permissions
read-enforced H path key e =
    elim (Result-cases (enforce_sensitive_permissions H path (codes "private key"))) [
      | inr (x, h) ↦ absurd (ground arith)
      | inl (u, h) ↦ h
    ]

when_enabled-ok :
    {A : Type 0} (b : Bool) (r : Result Error A) (a : A)
    → r ≡ ok a
    → (o : Option A) × (when_enabled b r ≡ ok o)
when_enabled-ok false r a e = (none, refl)
when_enabled-ok true r a e = (some a, rw e refl)

when_enabled-off :
    {A : Type 0} (b : Bool) (r : Result Error A) → b ≡ false → when_enabled b r ≡ ok none
when_enabled-off false r e = refl
when_enabled-off true r e = absurd cc

module _ (N : Noise) (is_dns_name : Text → Bool) (T : Tls) where
  -- With outer TLS on, a connector that cannot be made ends the verification.
  secure-fails :
      (config : OuterTlsConfig) (r : Reaching) (o : Remote) (x : Error)
      → config.enabled ≡ true
      → tls_connector T config ≡ err x
      → (secure N is_dns_name T config r o).0 ≡ err x
  secure-fails config r o x on h = ground arith

  module _ (config : ClientConfig) (private server : Bytes) (r : Reaching) where
    abbrev greeting : Exec Remote Error (Unit {0})
    greeting = complete_noise_handshake N private server r.patience >>= λ session. pure tt

    abbrev secured : Exec Remote Error (Unit {0})
    secured = secure N is_dns_name T config.outer_tls r >> greeting

    abbrev kept_alive : Exec Remote Error (Unit {0})
    kept_alive = lift (enable_tcp_keepalive r.keepalive) >> secured

    abbrev undelayed : Exec Remote Error (Unit {0})
    undelayed = lift (map_err anyhow r.nodelay) >> kept_alive

    verify-secure :
        (o o' : Remote)
        → verify_remote_noise N is_dns_name T config private server r o ≡ (ok tt, o')
        → (t t' : Remote) × (secure N is_dns_name T config.outer_tls r t ≡ (ok tt, t'))
    unfolding verify_remote_noise
    verify-secure o o' e =
        let (u, o1, reached, e1) =
          bind-ok (reach_in_time (codes "remote connect timed out") r.patience.elapsed r.connecting)
            (λ u. undelayed) o o' tt e in
        let (u', o2, set, e2) =
          bind-ok (lift (map_err anyhow r.nodelay)) (λ u. kept_alive) o1 o' tt e1 in
        let (v, o3, alive, e3) =
          bind-ok (lift (enable_tcp_keepalive r.keepalive)) (λ u. secured) o2 o' tt e2 in
        let (w, o4, made, e4) =
          bind-ok (secure N is_dns_name T config.outer_tls r) (λ u. greeting) o3 o' tt e3 in
        (o3, o4, made)

    pub verify-connector :
        (o o' : Remote)
        → verify_remote_noise N is_dns_name T config private server r o ≡ (ok tt, o')
        → (connector : Option (List T.Certificate)) × (when_enabled config.outer_tls.enabled
              (tls_connector T config.outer_tls)
            ≡ ok connector)
    verify-connector o o' e = elim (Result-cases (tls_connector T config.outer_tls)) [
      | inl (roots, h) ↦
          when_enabled-ok config.outer_tls.enabled (tls_connector T config.outer_tls) roots h
      | inr (x, h) ↦ elim (Bool-cases config.outer_tls.enabled) [
        | inr off ↦
            (none, when_enabled-off config.outer_tls.enabled (tls_connector T config.outer_tls) off)
        | inl on ↦
            let (t, t', made) = verify-secure o o' e in
            absurd (cc (secure-fails config.outer_tls r t x on h, ap (λ p. p.0) made))
      ]
    ]
