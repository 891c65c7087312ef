-- ===== src/Tunnel/Keys/Writing/Storing.antt =====
-- What `keygen` leaves in the file system.
use secure_tunnel.Prelude.{
  ℕ, ◌≡◌, refl, ap, ap₂, ◌∙◌, List, [], ◌∷◌, ◌++◌, false, Result-cases, inl, inr, ◌⊎◌, trim, length,
  Text, codes, Bytes, Result, ok, err, map_err, map_err-ok, arith,
}
use secure_tunnel.Prelude.Exec.{Exec, pure, lift, bind-ok, fail_if-ok, ◌>>=◌, ◌>>◌}
use secure_tunnel.Protocol.Noise.{Noise}
use secure_tunnel.Protocol.Error.{error_chain}
use secure_tunnel.Protocol.Builder.{StaticKeypair, noise_builder, generate_keypair, to_array32}
use secure_tunnel.Config.Values.{PathBuf}
use secure_tunnel.Tunnel.Io.{Error, anyhow, context}
use secure_tunnel.Tunnel.Keys.{
  regular_file, grants_others, permission_bits, read_private_key, enforce_sensitive_permissions,
}
use secure_tunnel.Tunnel.Keys.Writing.{
  Files, host, system, system_with, write_private_key, prepare_private_key_parent, fingerprint,
  keygen, client_keygen, server_keygen,
}

-- What the programs rely on of the file system and of base64.  `Open s f p m t`: the handle `f` is
-- that of the regular file at `p`, whose mode is `m` and which holds `t`.  The mode of a new file is
-- what was asked for, less the bits of the process's mask.
pub record Laws (F : Files) : Type 1 where
  pub Open : F.State → F.Handle → PathBuf → ℕ → Text → Type 0
  pub creates :
      (path : PathBuf) (mode : ℕ) (s s' : F.State) (f : F.Handle)
      → F.create_new path mode s ≡ (ok f, s')
      → grants_others mode ≡ false
      → (m : ℕ) × Open s' f path m [] × (grants_others m ≡ false)
  pub writes :
      (f : F.Handle) (path : PathBuf) (m : ℕ) (before text : Text) (s s' : F.State)
      → Open s f path m before
      → F.write_all f text s ≡ (ok tt, s')
      → Open s' f path m (before ++ text)
  pub syncs :
      (f : F.Handle) (path : PathBuf) (m : ℕ) (text : Text) (s s' : F.State)
      → Open s f path m text
      → F.sync_all f s ≡ (ok tt, s')
      → Open s' f path m text
  pub shows :
      (f : F.Handle) (path : PathBuf) (m : ℕ) (text : Text) (s : F.State)
      → Open s f path m text
      → (F.symlink_metadata s path ≡ ok (record { file_type = regular_file; mode = m }))
        × (F.read_to_string s path ≡ ok text)
  pub decodes : (key : Bytes) → F.decode_base64 (trim (F.encode_base64 key)) ≡ ok key

context-ok :
    {A : Type 0} (text : Text) (r : Result Error A) (a : A) → context text r ≡ ok a → r ≡ ok a
context-ok text (ok b) a e = cc
context-ok text (err x) a e = absurd cc

masked : (m : ℕ) → grants_others m ≡ false → grants_others (permission_bits m) ≡ false
masked m e = ground arith

module _ (F : Files) where
  system-ok :
      {A : Type 0} (m : Exec F.State Text A) (s s' : F.State) (a : A)
      → system F m s ≡ (ok a, s')
      → m s ≡ (ok a, s')
  system-ok m s s' a e =
      ap₂ (λ r t. (r, t)) (map_err-ok anyhow (m s).0 a (ap (λ p. p.0) e)) (ap (λ p. p.1) e)

  system_with-ok :
      {A : Type 0} (text : Text) (m : Exec F.State Text A) (s s' : F.State) (a : A)
      → system_with F text m s ≡ (ok a, s')
      → m s ≡ (ok a, s')
  system_with-ok text m s s' a e =
      ap₂ (λ r t. (r, t))
        (map_err-ok anyhow (m s).0 a (context-ok text (map_err anyhow (m s).0) a (ap (λ p. p.0) e)))
        (ap (λ p. p.1) e)

  abbrev fill : Bytes → F.Handle → Exec F.State Error (Unit {0})
  fill key f = system F (F.write_all f (F.encode_base64 key)) >> system F (F.sync_all f)

  abbrev open_new : PathBuf → Exec F.State Error F.Handle
  open_new path =
      system_with F (codes "could not create private key " ++ path) (F.create_new path 0o600)

  module _ (L : Laws F) where
    -- A key file that was written holds the key, readable for its owner alone.
    stored :
        (path : PathBuf) (key : Bytes) (s s' : F.State)
        → write_private_key F path key s ≡ (ok tt, s')
        → (f : F.Handle) × (m : ℕ) × L.Open s' f path m (F.encode_base64 key)
          × (grants_others m ≡ false)
    unfolding write_private_key
    stored path key s s' e =
        let (u, s1, prepared, e1) =
          bind-ok (prepare_private_key_parent F path) (λ u. open_new path >>= fill key) s s' tt e in
        let (f, s2, created, e2) = bind-ok (open_new path) (fill key) s1 s' tt e1 in
        let (v, s3, written, synced) =
          bind-ok (system F (F.write_all f (F.encode_base64 key))) (λ v. system F (F.sync_all f)) s2
            s' tt e2 in
        let (m, opened, private) =
          L.creates path 0o600 s1 s2 f
            (system_with-ok (codes "could not create private key " ++ path)
              (F.create_new path 0o600) s1 s2 f created)
            refl in
        (
          f,
          m,
          L.syncs f path m (F.encode_base64 key) s3 s'
              (L.writes f path m [] (F.encode_base64 key) s2 s3 opened
                (system-ok (F.write_all f (F.encode_base64 key)) s2 s3 tt written))
              (system-ok (F.sync_all f) s3 s' tt synced),
          private,
        )

    read_stored :
        (path : PathBuf) (key : Bytes) (s : F.State) (f : F.Handle) (m : ℕ)
        → L.Open s f path m (F.encode_base64 key)
        → grants_others m ≡ false
        → length key ≡ 32
        → read_private_key (host F s) path ≡ ok key
    unfolding read_private_key enforce_sensitive_permissions to_array32
    read_stored path key s f m opened private sized =
        let (shown, held) = L.shows f path m (F.encode_base64 key) s opened in
        rw (shown, masked m private, held, L.decodes key, sized, read_private_key) refl

    -- A private key of 32 bytes that `write_private_key` has written without an error is the one
    -- that `read_private_key` reads from that path, with the protection that it insists on.
    pub write-read_private_key :
        (path : PathBuf) (key : Bytes) (s s' : F.State)
        → length key ≡ 32
        → write_private_key F path key s ≡ (ok tt, s')
        → read_private_key (host F s') path ≡ ok key
    write-read_private_key path key s s' sized e =
        let (f, m, opened, private) = stored path key s s' e in
        read_stored path key s' f m opened private sized

generate_keypair-sized :
    (N : Noise) (pair : StaticKeypair) → generate_keypair N ≡ ok pair → length pair.private ≡ 32
unfolding generate_keypair to_array32
generate_keypair-sized N pair e = elim (Result-cases (noise_builder N)) [
  | inr (x, h) ↦ ground arith
  | inl (builder, h) ↦ elim (Result-cases (N.generate_keypair builder)) [
    | inr (x, g) ↦ ground arith
    | inl ((private, public), g) ↦ ground arith
  ]
]

module _ (F : Files) (L : Laws F) (N : Noise) where
  abbrev announced : PathBuf → StaticKeypair → List Text
  announced path pair =
      (codes "Private key written: " ++ path)
      ∷ (codes "Public key: " ++ F.encode_base64 pair.public)
      ∷ (codes "Fingerprint: SHA256:" ++ fingerprint F pair.public)
      ∷ []

  -- What a run of `keygen` that ended well has done.
  pub record Stored (path : PathBuf) (s s' : F.State) (lines : List Text) : Type 0 where
    pub pair : StaticKeypair
    pub generated : generate_keypair N ≡ ok pair
    pub fresh : F.exists s path ≡ false
    pub readable : read_private_key (host F s') path ≡ ok pair.private
    pub printed : lines ≡ announced path pair

  abbrev finish_keygen : PathBuf → StaticKeypair → Exec F.State Error (List Text)
  finish_keygen path pair = write_private_key F path pair.private >> pure (announced path pair)

  keygen-Stored :
      (described : Result Error StaticKeypair → Result Error StaticKeypair) (path : PathBuf)
      (s s' : F.State) (lines : List Text)
      → ((r : Result Error StaticKeypair) (pair : StaticKeypair)
          → described r ≡ ok pair
          → r ≡ ok pair)
      → keygen F N described path s ≡ (ok lines, s')
      → Stored path s s' lines
  unfolding keygen
  keygen-Stored described path s s' lines honest e =
      let generating = lift (described (map_err (error_chain N.error_text) (generate_keypair N))) in
      let (fresh, e1) =
        fail_if-ok (F.exists s path)
          (anyhow (codes "refusing to overwrite existing private key " ++ path))
          (generating >>= finish_keygen path) s s' lines e in
      let (pair, t, generated, e2) = bind-ok generating (finish_keygen path) s s' lines e1 in
      let made = map_err-ok (error_chain N.error_text) (generate_keypair N) pair (
        honest (map_err (error_chain N.error_text) (generate_keypair N)) pair
          (ap (λ p. p.0) generated)) in
      let (u, t', written, last) =
        bind-ok (write_private_key F path pair.private) (λ u. pure (announced path pair)) t s' lines
          e2 in
      record {
        pair = pair;
        generated = made;
        fresh = fresh;
        readable =
            write-read_private_key F L path pair.private t s' (generate_keypair-sized N pair made)
              (written ∙ ap (λ r. (ok u, r)) (ap (λ p. p.1) last));
        printed = cc;
      }

  -- When the client's or the server's `keygen` ends without an error, nothing existed at the path
  -- before, a key pair was generated, the key file that it has written is accepted and read back as
  -- its private key, and what it has printed is its public key and the fingerprint of that, but does
  -- not depend on the private key.
  pub keygen-IsStored :
      (path : PathBuf) (s s' : F.State) (lines : List Text)
      → (client_keygen F N path s ≡ (ok lines, s')) ⊎ (server_keygen F N path s ≡ (ok lines, s'))
      → Stored path s s' lines
  unfolding client_keygen server_keygen
  keygen-IsStored path s s' lines (inl e) =
      keygen-Stored (context (codes "could not generate Noise identity")) path s s' lines
        (context-ok (codes "could not generate Noise identity")) e
  keygen-IsStored path s s' lines (inr e) = keygen-Stored (λ r. r) path s s' lines (λ r pair e. e) e
