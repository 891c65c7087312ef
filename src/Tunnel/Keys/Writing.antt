-- ===== src/Tunnel/Keys/Writing.antt =====
-- Writing a new key file: `keygen` of crates/secure-tunnel-client/src/main.rs and
-- crates/secure-tunnel-server/src/main.rs, on Unix.
pub mod Storing
use secure_tunnel.Prelude.{
  ℕ, List, [], ◌∷◌, ◌++◌, Option, some, none, Bool, true, false, if◌then◌else◌, Text, codes, Bytes,
  Result, ok, err, map_err,
}
use secure_tunnel.Prelude.Exec.{Exec, pure, lift, gets, fail_if, ◌>>=◌, ◌>>◌}
use secure_tunnel.Protocol.Error.{error_chain}
use secure_tunnel.Protocol.Noise.{Noise}
use secure_tunnel.Protocol.Builder.{StaticKeypair, private_key, public_key, generate_keypair}
use secure_tunnel.Config.Values.{PathBuf}
use secure_tunnel.Tunnel.Io.{Error, anyhow, context}
use secure_tunnel.Tunnel.Keys.{Metadata, Host, enforce_private_parent_permissions}

-- What the programs ask of the file system, which is a state, and of the base64 and SHA-256
-- libraries. A text is written as the bytes of its characters, which are ASCII here.
pub record Files : Type 1 where
  pub State : Type 0
  pub Handle : Type 0
  pub exists : State → PathBuf → Bool
  pub parent : PathBuf → Option PathBuf
  pub symlink_metadata : State → PathBuf → Result Text Metadata
  pub read_to_string : State → PathBuf → Result Text Text
  pub create_dir : PathBuf → Exec State Text (Unit {0})
  pub set_permissions : PathBuf → ℕ → Exec State Text (Unit {0})
  -- `OpenOptions` with `write`, `create_new` and `mode`.
  pub create_new : PathBuf → ℕ → Exec State Text Handle
  pub write_all : Handle → Text → Exec State Text (Unit {0})
  pub sync_all : Handle → Exec State Text (Unit {0})
  pub encode_base64 : Bytes → Text
  pub decode_base64 : Text → Result Text Bytes
  pub sha256 : Bytes → Bytes

-- `path.parent().filter(|parent| !parent.as_os_str().is_empty()).unwrap_or(".")`
abbrev pub or_current : Option PathBuf → PathBuf
or_current none = codes "."
or_current (some []) = codes "."
or_current (some (c ∷ cs)) = c ∷ cs

module _ (F : Files) where
  open F use {State, Handle}

  -- What a reader of the files meets in a state.
  abbrev pub host : State → Host
  host s = record {
    symlink_metadata = F.symlink_metadata s;
    read_to_string = F.read_to_string s;
    decode_base64 = F.decode_base64;
  }

  -- A call of the system whose error `?` makes the error of the function.
  abbrev pub system : {A : Type 0} → Exec State Text A → Exec State Error A
  system m s = (map_err anyhow (m s).0, (m s).1)

  abbrev pub system_with : {A : Type 0} → Text → Exec State Text A → Exec State Error A
  system_with text m s = (context text (map_err anyhow (m s).0), (m s).1)

  unfoldable pub prepare_private_key_parent : PathBuf → Exec State Error (Unit {0})
  prepare_private_key_parent path =
      let parent = or_current (F.parent path) in
      do
        exists ← gets (λ s. F.exists s parent)
        if exists
            then (λ s. (enforce_private_parent_permissions (host s) parent, s))
            else (system_with
                  (codes "could not create dedicated private-key parent directory " ++ parent)
                  (F.create_dir parent)
                >> system (F.set_permissions parent 0o700))

  unfoldable pub write_private_key : PathBuf → Bytes → Exec State Error (Unit {0})
  unfolding prepare_private_key_parent
  write_private_key path key = do
    prepare_private_key_parent path
    key_file ← system_with (codes "could not create private key " ++ path) (F.create_new path 0o600)
    system (F.write_all key_file (F.encode_base64 key))
    system (F.sync_all key_file)

  unfoldable pub fingerprint : Bytes → Text
  fingerprint key = F.encode_base64 (F.sha256 key)

  -- The lines that are printed, all after the last step that may fail. `described` is what the
  -- program does with an error of `generate_keypair`.
  unfoldable pub keygen :
      (N : Noise)
      → (Result Error StaticKeypair → Result Error StaticKeypair)
      → PathBuf
      → Exec State Error (List Text)
  unfolding write_private_key fingerprint
  keygen N described path = do
    exists ← gets (λ s. F.exists s path)
    fail_if exists (anyhow (codes "refusing to overwrite existing private key " ++ path))
    keypair ← lift (described (map_err (error_chain N.error_text) (generate_keypair N)))
    write_private_key path (private_key keypair)
    pure (
        (codes "Private key written: " ++ path)
        ∷ (codes "Public key: " ++ F.encode_base64 (public_key keypair))
        ∷ (codes "Fingerprint: SHA256:" ++ fingerprint (public_key keypair))
        ∷ [])

  unfoldable pub client_keygen : Noise → PathBuf → Exec State Error (List Text)
  unfolding keygen
  client_keygen N = keygen N (context (codes "could not generate Noise identity"))

  pub server_keygen : Noise → PathBuf → Exec State Error (List Text)
  unfolding keygen
  server_keygen N = keygen N (λ result. result)
