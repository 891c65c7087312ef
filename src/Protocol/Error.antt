-- ===== src/Protocol/Error.antt =====
-- crates/secure-tunnel/src/lib.rs: the limits of the wire format and `TunnelError`.
use secure_tunnel.Prelude.{ℕ, List, [], ◌∷◌, ◌++◌, Text, codes, decimal}

abbrev pub max_handshake_message : ℕ
max_handshake_message = 4096

abbrev pub max_plaintext_record : ℕ
max_plaintext_record = 16384

abbrev pub max_ciphertext_record : ℕ
max_ciphertext_record = 16400

abbrev pub max_server_static_identities : ℕ
max_server_static_identities = 8

abbrev pub max_concurrent_connections : ℕ
max_concurrent_connections = 1024

-- `noise` carries the error of the Noise library.
pub data TunnelError (S : Type 0) : Type 0 where
  invalid_preface : TunnelError S
  unsupported_version : (major minor : ℕ) → TunnelError S
  handshake_message_too_large : ℕ → TunnelError S
  plaintext_too_large : ℕ → TunnelError S
  ciphertext_too_large : ℕ → TunnelError S
  truncated_frame : (expected actual : ℕ) → TunnelError S
  trailing_frame_bytes : TunnelError S
  handshake_order : TunnelError S
  closed_session : TunnelError S
  unauthorised_client : TunnelError S
  missing_server_static_identity : TunnelError S
  too_many_server_static_identities : ℕ → TunnelError S
  invalid_key_material : TunnelError S
  noise : S → TunnelError S
  poisoned_cipher_state : TunnelError S

-- The texts of the error and of its sources, outermost first; `#[from]` makes the Noise error a
-- source.
unfoldable pub error_chain : {S : Type 0} → (S → Text) → TunnelError S → List Text
error_chain show invalid_preface = codes "invalid protocol preface" ∷ []
error_chain show (unsupported_version major minor) =
    (codes "unsupported protocol version " ++ (decimal major ++ (codes "." ++ decimal minor))) ∷ []
error_chain show (handshake_message_too_large n) =
    (codes "handshake message is too large: " ++ (decimal n ++ codes " bytes")) ∷ []
error_chain show (plaintext_too_large n) =
    (codes "plaintext record is too large: " ++ (decimal n ++ codes " bytes")) ∷ []
error_chain show (ciphertext_too_large n) =
    (codes "ciphertext record is too large: " ++ (decimal n ++ codes " bytes")) ∷ []
error_chain show (truncated_frame expected actual) =
    (codes "truncated frame: expected "
      ++ (decimal expected ++ (codes " bytes, got " ++ decimal actual)))
    ∷ []
error_chain show trailing_frame_bytes = codes "frame contains trailing bytes" ∷ []
error_chain show handshake_order = codes "handshake operation is out of order" ∷ []
error_chain show closed_session =
    codes "handshake or transport session is closed after completion or failure" ∷ []
error_chain show unauthorised_client = codes "client static key is not authorised" ∷ []
error_chain show missing_server_static_identity =
    codes "at least one server static identity is required" ∷ []
error_chain show (too_many_server_static_identities n) =
    (codes "too many server static identities: "
      ++ (decimal n ++ (codes " (maximum " ++ (decimal max_server_static_identities ++ codes ")"))))
    ∷ []
error_chain show invalid_key_material = codes "invalid Noise static key material" ∷ []
error_chain show (noise e) = codes "cryptographic operation failed" ∷ show e ∷ []
error_chain show poisoned_cipher_state = codes "transport cipher state lock poisoned" ∷ []
