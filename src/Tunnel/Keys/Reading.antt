-- ===== src/Tunnel/Keys/Reading.antt =====
-- What is known of a key that was read.
use secure_tunnel.Prelude.{
  ℕ, ◌%◌, ◌≡◌, ◌↔◌, subst, refl, inl, inr, List, [], ◌∷◌, Bool-cases, true, false, length, trim,
  Text, codes, Bytes, Result, ok, Result-cases, arith,
}
use secure_tunnel.Protocol.Builder.{to_array32}
use secure_tunnel.Config.Values.{PathBuf}
use secure_tunnel.Config.Server.{IdentityConfig}
use secure_tunnel.Tunnel.Io.{Error}
use secure_tunnel.Tunnel.Keys.{
  Host, Metadata, FileType, regular_file, directory, symlink, other_file, is_file, grants_others,
  permission_bits, read_private_key, read_key_files, read_server_private_keys,
  enforce_sensitive_permissions,
}

is_file_lem : (t : FileType) → is_file t ≡ true → t ≡ regular_file
is_file_lem regular_file h = refl
is_file_lem directory h = cc
is_file_lem symlink h = cc
is_file_lem other_file h = cc

module _ (H : Host) where
  open H use {symlink_metadata, read_to_string, decode_base64}

  -- A regular file that nobody but its owner has access to, with a key of 32 bytes in base64.
  pub record IsKeyOf (path : PathBuf) (key : Bytes) : Type 0 where
    pub metadata : Metadata
    pub text : Text
    pub found : symlink_metadata path ≡ ok metadata
    pub regular : metadata.file_type ≡ regular_file
    pub protected : metadata.mode % 64 ≡ 0
    pub content : read_to_string path ≡ ok text
    pub decoded : decode_base64 (trim text) ≡ ok key
    pub sized : length key ≡ 32

  protected_lem : (mode : ℕ) → grants_others (permission_bits mode) ≡ false → mode % 64 ≡ 0
  protected_lem mode h = ground arith

  protected_back : (mode : ℕ) → mode % 64 ≡ 0 → grants_others (permission_bits mode) ≡ false
  protected_back mode h = ground arith

  enforced :
      (path : PathBuf) (kind : Text)
      → enforce_sensitive_permissions H path kind ≡ ok tt
      → (m : Metadata) × (symlink_metadata path ≡ ok m)
        × (m.file_type ≡ regular_file)
        × (m.mode % 64 ≡ 0)
  unfolding enforce_sensitive_permissions
  enforced path kind h = elim (Result-cases (symlink_metadata path)) [
    | inr (e, bad) ↦ absurd (ground arith)
    | inl (m, found) ↦ elim (Bool-cases (is_file m.file_type)) [
      | inr special ↦ absurd (ground arith)
      | inl plain ↦ (m, found, is_file_lem m.file_type plain, protected_lem m.mode (ground arith))
    ]
  ]

  read_private_key-IsKeyOf :
      (path : PathBuf) (key : Bytes) → read_private_key H path ≡ ok key → IsKeyOf path key
  unfolding read_private_key to_array32
  read_private_key-IsKeyOf path key h =
      elim (Result-cases (enforce_sensitive_permissions H path (codes "private key"))) [
        | inr (e, bad) ↦ absurd (ground arith)
        | inl (u, good) ↦ elim (Result-cases (read_to_string path)) [
          | inr (e, bad) ↦ absurd (ground arith)
          | inl (text, content) ↦ elim (Result-cases (decode_base64 (trim text))) [
            | inr (e, bad) ↦ absurd (ground arith)
            | inl (bytes, decoded) ↦
                let (m, found, regular, protected) = enforced path (codes "private key") good in
                record {
                  metadata = m;
                  text = text;
                  found = found;
                  regular = regular;
                  protected = protected;
                  content = content;
                  decoded = ground arith;
                  sized = ground arith;
                }
          ]
        ]
      ]

  IsKeyOf-read_private_key :
      (path : PathBuf) (key : Bytes) → IsKeyOf path key → read_private_key H path ≡ ok key
  unfolding read_private_key to_array32 enforce_sensitive_permissions
  IsKeyOf-read_private_key path key k =
      rw
        (
          k.found,
          k.regular,
          k.content,
          protected_back k.metadata.mode k.protected,
          k.decoded,
          k.sized,
        )
        refl

  -- The keys of the files, in their order.
  abbrev pub AreKeysOf : List PathBuf → List Bytes → Type 0
  AreKeysOf [] [] = Unit {0}
  AreKeysOf [] (key ∷ keys) = ⊥
  AreKeysOf (path ∷ paths) [] = ⊥
  AreKeysOf (path ∷ paths) (key ∷ keys) = IsKeyOf path key × AreKeysOf paths keys

  read_key_files_sound :
      (paths : List PathBuf) (keys : List Bytes)
      → read_key_files H paths ≡ ok keys
      → AreKeysOf paths keys
  unfolding read_key_files
  read_key_files_sound [] [] h = tt
  read_key_files_sound [] (key ∷ keys) h = absurd (cc)
  read_key_files_sound (path ∷ paths) keys h = elim (Result-cases (read_private_key H path)) [
    | inr (e, bad) ↦ absurd (ground arith)
    | inl (k, read) ↦ elim (Result-cases (read_key_files H paths)) [
      | inr (e, bad) ↦ absurd (ground arith)
      | inl (ks, more) ↦
          subst (AreKeysOf (path ∷ paths)) (the_same k ks (rw (read, more, read_key_files) at h))
            (read_private_key-IsKeyOf path k read, read_key_files_sound paths ks more)
    ]
  ]
    where
      the_same :
          (k : Bytes) (ks : List Bytes)
          → Path (Result Error (List Bytes)) (ok (k ∷ ks)) (ok keys)
          → k ∷ ks ≡ keys
      the_same k ks e = cc

  read_key_files_complete :
      (paths : List PathBuf) (keys : List Bytes)
      → AreKeysOf paths keys
      → read_key_files H paths ≡ ok keys
  unfolding read_key_files
  read_key_files_complete [] [] h = refl
  read_key_files_complete [] (key ∷ keys) h = absurd h
  read_key_files_complete (path ∷ paths) [] h = absurd h
  read_key_files_complete (path ∷ paths) (key ∷ keys) (k, ks) =
      rw (IsKeyOf-read_private_key path key k, read_key_files_complete paths keys ks) refl

  -- The server's keys are read exactly when each of its key files is a regular file without any group
  -- or world permission that holds a 32-byte key in base64; the keys are those of the files, in their
  -- order.
  pub read_server_private_keys_iff :
      (identity : IdentityConfig) (keys : List Bytes)
      → (read_server_private_keys H identity ≡ ok keys)
        ↔ AreKeysOf (identity.private_key_file ∷ identity.additional_private_key_files) keys
  unfolding read_server_private_keys
  read_server_private_keys_iff identity keys =
      let paths = identity.private_key_file ∷ identity.additional_private_key_files in
      (read_key_files_sound paths keys, read_key_files_complete paths keys)
