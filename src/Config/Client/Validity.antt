-- ===== src/Config/Client/Validity.antt =====
-- What a client configuration must be, said without the order of the checks.
use secure_tunnel.Prelude.{
  ◌≤◌, ◌≡◌, ◌≢◌, ◌↔◌, refl, ap, ◌∙◌, [], Bool, ◌&&◌, Option, some, none, true, false, trim, Text,
  Result, ok, arith, is_empty, Result-cases, inl, inr,
}
use secure_tunnel.Protocol.Error.{max_concurrent_connections}
use secure_tunnel.Config.Values.{When, IsLoopback, is_loopback, is_loopback_iff, is_empty_iff}
use secure_tunnel.Config.Client.{ClientConfig, validate, from_toml, lacks_name}

pub record IsValid (c : ClientConfig) : Type 0 where
  pub loopback : IsLoopback c.listen_address.ip
  pub remote : trim c.remote_address ≢ []
  pub pinned : trim c.server_public_key ≢ []
  pub named :
      When c.outer_tls.enabled
        ((name : Text) × (c.outer_tls.server_name ≡ some name) × (trim name ≢ []))
  pub connect : 1 ≤ c.timeouts.connect_seconds
  pub handshake : 1 ≤ c.timeouts.handshake_seconds
  pub idle : 1 ≤ c.timeouts.idle_seconds
  pub some_connection : 1 ≤ c.limits.max_connections
  pub few_connections : c.limits.max_connections ≤ max_concurrent_connections

lacks_name_iff :
    (o : Option Text)
    → (lacks_name o ≡ false) ↔ ((name : Text) × (o ≡ some name) × (trim name ≢ []))
lacks_name_iff none = ((λ e. absurd (cc)), λ p. absurd (cc (p.1)))
lacks_name_iff (some name) = (
  (λ e. (name, refl, (is_empty_iff (trim name)).0 e)),
  λ p. (is_empty_iff (trim name)).1 (λ e. p.2 (cc (p.1))),
)

-- The tests that `validate` makes, all of them passed.
record IsPassed (c : ClientConfig) : Type 0 where
  loopback : is_loopback c.listen_address.ip ≡ true
  remote : is_empty (trim c.remote_address) ≡ false
  pinned : is_empty (trim c.server_public_key) ≡ false
  named : (c.outer_tls.enabled && lacks_name c.outer_tls.server_name) ≡ false
  connect : 1 ≤ c.timeouts.connect_seconds
  handshake : 1 ≤ c.timeouts.handshake_seconds
  idle : 1 ≤ c.timeouts.idle_seconds
  some_connection : 1 ≤ c.limits.max_connections
  few_connections : c.limits.max_connections ≤ max_concurrent_connections

validate-IsPassed : (c : ClientConfig) → validate c ≡ ok tt → IsPassed c
unfolding validate
validate-IsPassed c h = ground arith

IsPassed-validate : (c : ClientConfig) → IsPassed c → validate c ≡ ok tt
unfolding validate
IsPassed-validate c p = ground arith

named_iff :
    (b : Bool) (o : Option Text)
    → ((b && lacks_name o) ≡ false) ↔ When b ((name : Text) × (o ≡ some name) × (trim name ≢ []))
named_iff true o = lacks_name_iff o
named_iff false o = ((λ e. tt), λ h. refl)

-- A client configuration is accepted exactly when it is valid: it listens on a loopback address, names
-- a remote and a pinned server key, names the TLS server if TLS is on, has positive timeouts, and
-- allows 1 to 1024 connections.
pub validate_iff : (c : ClientConfig) → (validate c ≡ ok tt) ↔ IsValid c
validate_iff c = ((λ e. valid (validate-IsPassed c e)), λ v. IsPassed-validate c (passed v))
  where
    valid : IsPassed c → IsValid c
    valid p = record {
      loopback = (is_loopback_iff c.listen_address.ip).0 p.loopback;
      remote = (is_empty_iff (trim c.remote_address)).0 p.remote;
      pinned = (is_empty_iff (trim c.server_public_key)).0 p.pinned;
      named = (named_iff c.outer_tls.enabled c.outer_tls.server_name).0 p.named;
      connect = p.connect;
      handshake = p.handshake;
      idle = p.idle;
      some_connection = p.some_connection;
      few_connections = p.few_connections;
    }

    passed : IsValid c → IsPassed c
    passed v = record {
      loopback = (is_loopback_iff c.listen_address.ip).1 v.loopback;
      remote = (is_empty_iff (trim c.remote_address)).1 v.remote;
      pinned = (is_empty_iff (trim c.server_public_key)).1 v.pinned;
      named = (named_iff c.outer_tls.enabled c.outer_tls.server_name).1 v.named;
      connect = v.connect;
      handshake = v.handshake;
      idle = v.idle;
      some_connection = v.some_connection;
      few_connections = v.few_connections;
    }

-- A text is loaded as a client configuration exactly when the parser makes it of the text and it
-- is valid: it listens on a loopback address, names a remote and a pinned server key, names the
-- TLS server if TLS is on, has positive timeouts, and allows 1 to 1024 connections.
pub from_toml-IsValid :
    (parse : Text → Result Text ClientConfig) (text : Text) (c : ClientConfig)
    → (from_toml parse text ≡ ok c) ↔ ((parse text ≡ ok c) × IsValid c)
unfolding from_toml
from_toml-IsValid parse text c = (forth, λ h. rw (h.0, (validate_iff c).1 h.1))
  where
    forth : from_toml parse text ≡ ok c → (parse text ≡ ok c) × IsValid c
    forth h = elim (Result-cases (parse text)) [
      | inr (e, bad) ↦ absurd (ground arith)
      | inl (c', parsed) ↦ elim (Result-cases (validate c')) [
        | inr (e, bad) ↦ absurd (ground arith)
        | inl (u, passes) ↦
            let same : c' ≡ c = ground arith in
            (parsed ∙ ap ok same, (validate_iff c).0 (rw (← same) passes))
      ]
    ]
