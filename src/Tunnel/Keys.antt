-- ===== src/Tunnel/Keys.antt =====
-- Key files, the same in crates/secure-tunnel-client/src/main.rs and
-- crates/secure-tunnel-server/src/main.rs, on Unix.
pub mod Reading
pub mod Writing
use secure_tunnel.Prelude.{
  ℕ, ◌%◌, List, [], ◌∷◌, ◌++◌, Bool, true, false, not, ◌==◌, if◌then◌else◌, trim, octal, Text,
  codes, Bytes, Result, ok, err, map_err, bail_if, ◌>>=◌, ◌>>◌,
}
use secure_tunnel.Protocol.Builder.{to_array32}
use secure_tunnel.Config.Values.{PathBuf}
use secure_tunnel.Config.Server.{IdentityConfig, AuthorisedClient}
use secure_tunnel.Tunnel.Io.{Error, anyhow, context}

pub data FileType : Type 0 where
  regular_file : FileType
  directory : FileType
  symlink : FileType
  other_file : FileType

-- The type and `st_mode`.
pub record Metadata : Type 0 where
  pub file_type : FileType
  pub mode : ℕ

-- What the program asks of the operating system and of the base64 library.
pub record Host : Type 0 where
  pub symlink_metadata : PathBuf → Result Text Metadata
  pub read_to_string : PathBuf → Result Text Text
  pub decode_base64 : Text → Result Text Bytes

abbrev pub is_file : FileType → Bool
is_file regular_file = true
is_file _ = false

abbrev pub is_dir : FileType → Bool
is_dir directory = true
is_dir _ = false

-- `mode & 0o777`, and the test that `mode & 0o077` is not 0.
abbrev pub permission_bits : ℕ → ℕ
permission_bits mode = mode % 512

abbrev pub grants_others : ℕ → Bool
grants_others mode = not (mode % 64 == 0)

module _ (H : Host) where
  open H use {symlink_metadata, read_to_string, decode_base64}

  unfoldable pub enforce_sensitive_permissions : PathBuf → Text → Result Error (Unit {0})
  enforce_sensitive_permissions path kind = do
    metadata ← map_err anyhow (symlink_metadata path)
    bail_if (not (is_file metadata.file_type))
        (anyhow (kind ++ (codes " " ++ (path ++ codes " must be a regular non-symlink file"))))
    let mode = permission_bits metadata.mode
    bail_if (grants_others mode) (
        anyhow (
          kind
          ++ (codes " "
              ++ (path
                  ++ (codes " must not be group/world readable (mode "
                      ++ (octal mode ++ codes ")"))))))

  unfoldable pub enforce_private_permissions : PathBuf → Result Error (Unit {0})
  unfolding enforce_sensitive_permissions
  enforce_private_permissions path = enforce_sensitive_permissions path (codes "private key")

  unfoldable pub enforce_config_permissions : PathBuf → Result Error (Unit {0})
  unfolding enforce_sensitive_permissions
  enforce_config_permissions path = enforce_sensitive_permissions path (codes "configuration")

  unfoldable pub enforce_private_parent_permissions : PathBuf → Result Error (Unit {0})
  enforce_private_parent_permissions path = do
    metadata ← map_err anyhow (symlink_metadata path)
    bail_if (not (is_dir metadata.file_type)) (
        anyhow
          (codes "private-key parent directory " ++ (path ++ codes " must be a real directory")))
    let mode = permission_bits metadata.mode
    bail_if (grants_others mode) (
        anyhow (
          codes "private-key parent directory "
          ++ (path
              ++ (codes " must not grant group/world access (mode " ++ (octal mode ++ codes ")")))))

  unfoldable pub decode_public_key : Text → Result Error Bytes
  unfolding to_array32
  decode_public_key value = do
    bytes ←
        context (codes "invalid base64 public key") (map_err anyhow (decode_base64 (trim value)))
    to_array32 (anyhow (codes "Noise public key must be 32 bytes")) bytes

  unfoldable pub read_private_key : PathBuf → Result Error Bytes
  unfolding to_array32 enforce_sensitive_permissions
  read_private_key path = do
    enforce_sensitive_permissions path (codes "private key")
    text ← map_err anyhow (read_to_string path)
    bytes ← map_err anyhow (decode_base64 (trim text))
    to_array32 (anyhow (codes "Noise private key must be 32 bytes")) bytes

  unfoldable pub read_key_files : List PathBuf → Result Error (List Bytes)
  read_key_files [] = ok []
  read_key_files (path ∷ paths) = do
    key ← context (codes "could not read server private key " ++ path) (read_private_key path)
    keys ← read_key_files paths
    ok (key ∷ keys)

  unfoldable pub read_server_private_keys : IdentityConfig → Result Error (List Bytes)
  unfolding read_key_files
  read_server_private_keys identity =
      read_key_files (identity.private_key_file ∷ identity.additional_private_key_files)

  -- `.map(|c| decode_public_key(&c.public_key)).collect()`
  unfoldable pub decode_clients : List AuthorisedClient → Result Error (List Bytes)
  unfolding decode_public_key
  decode_clients [] = ok []
  decode_clients (c ∷ cs) = do
    key ← decode_public_key c.public_key
    keys ← decode_clients cs
    ok (key ∷ keys)
