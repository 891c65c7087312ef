-- ===== src/Config/Server/Validity.antt =====
-- What a server configuration must be, said without the order of the checks.
use secure_tunnel.Prelude.{
  ◌+◌, ◌≤◌, ◌≡◌, ◌≢◌, ◌↔◌, ◌&&◌, refl, ap, ◌∙◌, List, [], ◌∷◌, Bool, Option, some, none, true,
  false, trim, Text, Result, ok, arith, is_empty, any, length, All, Result-cases, inl, inr,
}
use secure_tunnel.Protocol.Error.{max_concurrent_connections, max_server_static_identities}
use secure_tunnel.Config.Values.{
  When, IsLoopback, is_loopback, is_loopback_iff, is_empty_iff, PathBuf, IsDistinct, has_duplicate,
  has_duplicate_iff,
}
use secure_tunnel.Config.Server.{
  ServerConfig, AuthorisedClient, validate, from_toml, is_none, is_incomplete,
}

abbrev pub IsComplete : AuthorisedClient → Type 0
IsComplete client = (trim client.name ≢ []) × (trim client.public_key ≢ [])

abbrev pub key_files : ServerConfig → List PathBuf
key_files c = c.identity.private_key_file ∷ c.identity.additional_private_key_files

pub record IsValid (c : ServerConfig) : Type 0 where
  pub loopback : IsLoopback c.destination_address.ip
  pub some_client : c.authorized_clients ≢ []
  pub complete : All IsComplete c.authorized_clients
  pub named_files : All (λ p. p ≢ []) (key_files c)
  pub few_identities : length (key_files c) ≤ max_server_static_identities
  pub distinct : IsDistinct (key_files c)
  pub some_connection : 1 ≤ c.limits.max_connections
  pub few_connections : c.limits.max_connections ≤ max_concurrent_connections
  pub record_limit : c.limits.max_plaintext_record_bytes ≡ 16384
  pub certificate :
      When c.outer_tls.enabled ((p : PathBuf) × (c.outer_tls.certificate_file ≡ some p))
  pub tls_key : When c.outer_tls.enabled ((p : PathBuf) × (c.outer_tls.private_key_file ≡ some p))
  pub connect : 1 ≤ c.timeouts.destination_connect_seconds
  pub handshake : 1 ≤ c.timeouts.handshake_seconds
  pub idle : 1 ≤ c.timeouts.idle_seconds

-- The tests that `validate` makes, all of them passed.
record IsPassed (c : ServerConfig) : Type 0 where
  loopback : is_loopback c.destination_address.ip ≡ true
  some_client : is_empty c.authorized_clients ≡ false
  complete : any is_incomplete c.authorized_clients ≡ false
  first_file : is_empty c.identity.private_key_file ≡ false
  other_files : any is_empty c.identity.additional_private_key_files ≡ false
  few_identities : 1 + length c.identity.additional_private_key_files ≤ max_server_static_identities
  distinct :
      has_duplicate (c.identity.private_key_file ∷ []) c.identity.additional_private_key_files
      ≡ false
  some_connection : 1 ≤ c.limits.max_connections
  few_connections : c.limits.max_connections ≤ max_concurrent_connections
  record_limit : c.limits.max_plaintext_record_bytes ≡ 16384
  certificate : (c.outer_tls.enabled && is_none c.outer_tls.certificate_file) ≡ false
  tls_key : (c.outer_tls.enabled && is_none c.outer_tls.private_key_file) ≡ false
  connect : 1 ≤ c.timeouts.destination_connect_seconds
  handshake : 1 ≤ c.timeouts.handshake_seconds
  idle : 1 ≤ c.timeouts.idle_seconds

validate-IsPassed : (c : ServerConfig) → validate c ≡ ok tt → IsPassed c
unfolding validate
validate-IsPassed c h = ground arith

IsPassed-validate : (c : ServerConfig) → IsPassed c → validate c ≡ ok tt
unfolding validate
IsPassed-validate c p = ground arith

clients_iff :
    (clients : List AuthorisedClient) → (any is_incomplete clients ≡ false) ↔ All IsComplete clients
clients_iff [] = ((λ e. tt), λ h. refl)
clients_iff (c ∷ cs) =
    ground (arith, clients_iff cs, is_empty_iff (trim c.name), is_empty_iff (trim c.public_key))

files_iff : (ps : List PathBuf) → (any is_empty ps ≡ false) ↔ All (λ p. p ≢ []) ps
files_iff [] = ((λ e. tt), λ h. refl)
files_iff (p ∷ ps) = ground (arith, files_iff ps, is_empty_iff p)

file_iff :
    (b : Bool) (o : Option PathBuf)
    → ((b && is_none o) ≡ false) ↔ When b ((p : PathBuf) × (o ≡ some p))
file_iff true none = ((λ e. absurd (cc)), λ h. absurd (cc (h.1)))
file_iff true (some p) = ((λ e. (p, refl)), λ h. refl)
file_iff false o = ((λ e. tt), λ h. refl)

IsPassed-IsValid : (c : ServerConfig) → IsPassed c → IsValid c
IsPassed-IsValid c p = record {
  loopback = (is_loopback_iff c.destination_address.ip).0 p.loopback;
  some_client = (is_empty_iff c.authorized_clients).0 p.some_client;
  complete = (clients_iff c.authorized_clients).0 p.complete;
  named_files = (
    (is_empty_iff c.identity.private_key_file).0 p.first_file,
    (files_iff c.identity.additional_private_key_files).0 p.other_files,
  );
  few_identities = omega (arith, p.few_identities);
  distinct =
      (has_duplicate_iff c.identity.private_key_file c.identity.additional_private_key_files).0
        p.distinct;
  some_connection = p.some_connection;
  few_connections = p.few_connections;
  record_limit = p.record_limit;
  certificate = (file_iff c.outer_tls.enabled c.outer_tls.certificate_file).0 p.certificate;
  tls_key = (file_iff c.outer_tls.enabled c.outer_tls.private_key_file).0 p.tls_key;
  connect = p.connect;
  handshake = p.handshake;
  idle = p.idle;
}

IsValid-IsPassed : (c : ServerConfig) → IsValid c → IsPassed c
IsValid-IsPassed c v = record {
  loopback = (is_loopback_iff c.destination_address.ip).1 v.loopback;
  some_client = (is_empty_iff c.authorized_clients).1 v.some_client;
  complete = (clients_iff c.authorized_clients).1 v.complete;
  first_file = (is_empty_iff c.identity.private_key_file).1 v.named_files.0;
  other_files = (files_iff c.identity.additional_private_key_files).1 v.named_files.1;
  few_identities = omega (arith, v.few_identities);
  distinct =
      (has_duplicate_iff c.identity.private_key_file c.identity.additional_private_key_files).1
        v.distinct;
  some_connection = v.some_connection;
  few_connections = v.few_connections;
  record_limit = v.record_limit;
  certificate = (file_iff c.outer_tls.enabled c.outer_tls.certificate_file).1 v.certificate;
  tls_key = (file_iff c.outer_tls.enabled c.outer_tls.private_key_file).1 v.tls_key;
  connect = v.connect;
  handshake = v.handshake;
  idle = v.idle;
}

-- A server configuration is accepted exactly when it is valid: its destination is a loopback address,
-- it has authorised clients with names and keys, one to eight key files with non-empty and pairwise
-- different paths, 1 to 1024 connections and the record limit of version 1, the files that TLS needs
-- if it is on, and positive timeouts.
pub validate_iff : (c : ServerConfig) → (validate c ≡ ok tt) ↔ IsValid c
validate_iff c = (
  (λ e. IsPassed-IsValid c (validate-IsPassed c e)),
  λ v. IsPassed-validate c (IsValid-IsPassed c v),
)

-- A text is loaded as a server configuration exactly when the parser makes it of the text and it
-- is valid: its destination is a loopback address, it has authorised clients, each with a name
-- and a key, one to eight key files with non-empty and pairwise different paths, 1 to 1024
-- connections and the record limit of 16384 bytes, the files that TLS needs if it is on, and
-- positive timeouts.
pub from_toml_iff :
    (parse : Text → Result Text ServerConfig) (text : Text) (c : ServerConfig)
    → (from_toml parse text ≡ ok c) ↔ ((parse text ≡ ok c) × IsValid c)
unfolding from_toml
from_toml_iff parse text c = (forth, λ h. rw (h.0, (validate_iff c).1 h.1))
  where
    forth : from_toml parse text ≡ ok c → (parse text ≡ ok c) × IsValid c
    forth h = elim (Result-cases (parse text)) [
      | inr (e, bad) ↦ absurd (ground arith)
      | inl (c', parsed) ↦ elim (Result-cases (validate c')) [
        | inr (e, bad) ↦ absurd (ground arith)
        | inl (u, passes) ↦
            let same : c' ≡ c = ground arith in
            (parsed ∙ ap ok same, (validate_iff c).0 (rw (← same) passes))
      ]
    ]
