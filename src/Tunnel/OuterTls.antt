-- ===== src/Tunnel/OuterTls.antt =====
-- Outer TLS: `tls_connector` of crates/secure-tunnel-client/src/main.rs and `tls_acceptor` of
-- crates/secure-tunnel-server/src/main.rs.
use secure_tunnel.Prelude.{
  ◌≡◌, refl, List, [], ◌∷◌, ◌++◌, Option, none, some, Bool, true, not, is_empty, if◌then◌else◌,
  Text, codes, Bytes, Result, ok, map_err, bail_if, ok_or, ◌>>=◌, ◌>>◌,
}
use secure_tunnel.Config.Values.{PathBuf}
use secure_tunnel.Config.Client
use secure_tunnel.Config.Server
use secure_tunnel.Tunnel.Io.{Error, anyhow, context}
use secure_tunnel.Tunnel.Keys.{Host, enforce_private_permissions}

-- What the programs ask of the TLS libraries and of the files that these read. `native_errors` are
-- what went wrong while the system's trust roots were loaded.
pub record Tls : Type 1 where
  pub Certificate : Type 0
  pub PrivateKey : Type 0
  pub native_certificates : List Certificate
  pub native_errors : List Text
  pub show_errors : List Text → Text
  pub open_file : PathBuf → Result Text Bytes
  pub certificates_of : Bytes → Result Text (List Certificate)
  pub private_key_of : Bytes → Result Text (Option PrivateKey)
  -- Whether a store of trust roots takes the certificate.
  pub is_parsable : Certificate → Bool
  -- The choice of TLS 1.3 alone, and a certificate chain with its key.
  pub with_tls13 : Result Text (Unit {0})
  pub with_single_cert : List Certificate → PrivateKey → Result Text (Unit {0})

is_empty-nil : {A : Type 0} (xs : List A) → is_empty xs ≡ true → xs ≡ []
is_empty-nil [] e = refl
is_empty-nil (x ∷ xs) e = cc

module _ (T : Tls) where
  open T use {Certificate}

  -- `roots.add_parsable_certificates(certificates)`
  abbrev pub parsable : List Certificate → List Certificate
  parsable [] = []
  parsable (c ∷ cs) = if T.is_parsable c then c ∷ parsable cs else parsable cs

  abbrev pub additional_roots : Option PathBuf → Result Error (List Certificate)
  additional_roots none = ok []
  additional_roots (some path) = do
    file ←
        context (codes "could not open additional TLS CA " ++ path)
          (map_err anyhow (T.open_file path))
    certificates ←
        context (codes "could not parse additional TLS CA " ++ path)
          (map_err anyhow (T.certificates_of file))
    bail_if (is_empty certificates)
        (anyhow (codes "additional TLS CA " ++ (path ++ codes " contains no certificates")))
    bail_if (is_empty (parsable certificates))
        (anyhow (codes "additional TLS CA " ++ (path ++ codes " contained no usable certificates")))
    ok (parsable certificates)

  -- The trust roots of the connector, which speaks TLS 1.3 only and has no certificate of its own.
  unfoldable pub tls_connector : Client.OuterTlsConfig → Result Error (List Certificate)
  tls_connector config = do
    bail_if (not (is_empty T.native_errors)) (
        anyhow
          (codes "could not load all system TLS trust roots: " ++ T.show_errors T.native_errors))
    bail_if (is_empty T.native_certificates) (anyhow (codes "system TLS trust store is empty"))
    additional ← additional_roots config.additional_ca_file
    map_err anyhow T.with_tls13
    ok (parsable T.native_certificates ++ additional)

  unfoldable pub tls_acceptor :
      Host → Server.OuterTlsConfig → Result Error (List Certificate × T.PrivateKey)
  tls_acceptor H config = do
    certificate_path ←
        ok_or config.certificate_file
          (anyhow (codes "outer_tls.certificate_file is required when outer TLS is enabled"))
    private_key_path ←
        ok_or config.private_key_file
          (anyhow (codes "outer_tls.private_key_file is required when outer TLS is enabled"))
    enforce_private_permissions H private_key_path
    file ←
        context (codes "could not open TLS certificate " ++ certificate_path)
          (map_err anyhow (T.open_file certificate_path))
    certificates ←
        context (codes "could not parse TLS certificate " ++ certificate_path)
          (map_err anyhow (T.certificates_of file))
    bail_if (is_empty certificates) (
        anyhow
          (codes "TLS certificate " ++ (certificate_path ++ codes " contains no certificates")))
    key_file ←
        context (codes "could not open TLS private key " ++ private_key_path)
          (map_err anyhow (T.open_file private_key_path))
    found ←
        context (codes "could not parse TLS private key " ++ private_key_path)
          (map_err anyhow (T.private_key_of key_file))
    private_key ← ok_or found (
        anyhow (codes "TLS private key " ++ (private_key_path ++ codes " contains no private key")))
    map_err anyhow T.with_tls13
    context (codes "TLS certificate and private key do not match")
        (map_err anyhow (T.with_single_cert certificates private_key))
    ok (certificates, private_key)
