-- ===== src/Examples/Disk.antt =====
-- A file system with one file, and a new key on it.
use mathlib.Core.List.{reverse, reverse-append, reverse-reverse}
use secure_tunnel.Prelude.{
  ℕ, ◌-◌, ◌≡◌, refl, sym, ap, ◌∙◌, inl, List, [], ◌∷◌, ◌++◌, Option, some, none, Bool, true, false,
  trim, length, length-append, take, drop, take-append_length, Text, codes, Bytes, Result, ok, err,
  arith,
}
use secure_tunnel.Prelude.Exec.{Exec}
use secure_tunnel.Protocol.Noise.{Noise}
use secure_tunnel.Protocol.Builder.{generate_keypair, noise_builder, to_array32}
use secure_tunnel.Config.Values.{PathBuf}
use secure_tunnel.Tunnel.Keys.{regular_file}
use secure_tunnel.Tunnel.Keys.Writing.{
  Files, write_private_key, prepare_private_key_parent, fingerprint, keygen, client_keygen,
}
use secure_tunnel.Tunnel.Keys.Writing.Storing.{Laws, Stored, keygen-IsStored}
use secure_tunnel.Examples.Ik.{ik}
use secure_tunnel.Examples.Handshake.{key}

abbrev content : Option Text → Result Text Text
content none = err (codes "No such file or directory")
content (some text) = ok text

abbrev append_to : Text → Exec (Option Text) Text (Unit {0})
append_to text none = (err (codes "Bad file descriptor"), none)
append_to text (some before) = (ok tt, some (before ++ text))

abbrev create : Exec (Option Text) Text (Unit {0})
create none = (ok tt, some [])
create (some text) = (err (codes "File exists"), some text)

abbrev armour : Bytes → Text
armour key = 65 ∷ (key ++ (66 ∷ []))

abbrev unarmour : Text → Bytes
unarmour text = take (length text - 2) (drop 1 text)

abbrev is_there : Option Text → Bool
is_there none = false
is_there (some text) = true

abbrev pub disk : Files
disk = record {
  State = Option Text;
  Handle = Unit {0};
  exists = λ s path. is_there s;
  parent = λ path. some (codes "keys");
  symlink_metadata = λ s path. ok (record { file_type = regular_file; mode = 0o600 });
  read_to_string = λ s path. content s;
  create_dir = λ path s. (ok tt, s);
  set_permissions = λ path mode s. (ok tt, s);
  create_new = λ path mode. create;
  write_all = λ f. append_to;
  sync_all = λ f s. (ok tt, s);
  encode_base64 = armour;
  decode_base64 = λ text. ok (unarmour text);
  sha256 = λ bytes. take 4 bytes;
}

trim-armour : (key : Bytes) → trim (armour key) ≡ armour key
unfolding trim
trim-armour key =
    rw (reverse-append (65 ∷ key) (66 ∷ []))
      (sym (ap reverse (reverse-append (65 ∷ key) (66 ∷ []))) ∙ reverse-reverse (armour key))

unarmour-armour : (key : Bytes) → unarmour (armour key) ≡ key
unarmour-armour key =
    take-append_length _ key (66 ∷ []) (omega (arith, length-append key (66 ∷ [])))

abbrev IsOpen : Option Text → Unit {0} → PathBuf → ℕ → Text → Type 0
IsOpen s f path m text = (m ≡ 0o600) × (s ≡ some text)

create-open : (s s' : Option Text) (f : Unit {0}) → create s ≡ (ok f, s') → s' ≡ some []
create-open none s' f e = sym (ap (λ p. p.1) e)
create-open (some text) s' f e = absurd cc

append_to-open :
    (before text : Text) (s s' : Option Text)
    → s ≡ some before
    → append_to text s ≡ (ok tt, s')
    → s' ≡ some (before ++ text)
append_to-open before text none s' h e = absurd cc
append_to-open before text (some b) s' h e = cc

disk_laws : Laws disk
disk_laws = record {
  Open = IsOpen;
  creates = λ path mode s s' f e private. (0o600, (refl, create-open s s' f e), refl);
  writes =
      λ f path m before text s s' (small, held) e. (small, append_to-open before text s s' held e);
  syncs = λ f path m text s s' (small, held) e. (small, sym (ap (λ p. p.1) e) ∙ held);
  shows = λ f path m text s (small, held). (rw small refl, rw held refl);
  decodes = λ key. ap ok (ap unarmour (trim-armour key) ∙ unarmour-armour key);
}

-- A Noise library that generates the same key pair whenever it is asked.
abbrev fixed : Noise
fixed = record ik { generate_keypair = λ builder. ok (key 4, key 6) }

abbrev key_lines : List Text
key_lines =
    codes "Private key written: keys/new"
    ∷ (codes "Public key: " ++ armour (key 6))
    ∷ (codes "Fingerprint: SHA256:" ++ armour (6 ∷ 6 ∷ 6 ∷ 6 ∷ []))
    ∷ []

generated : client_keygen disk fixed (codes "keys/new") none ≡ (ok key_lines, some (armour (key 4)))
unfolding client_keygen keygen write_private_key prepare_private_key_parent fingerprint
    generate_keypair noise_builder to_array32
generated = refl

keygen-IsStored_example :
    Stored disk disk_laws fixed (codes "keys/new") none (some (armour (key 4))) key_lines
keygen-IsStored_example =
    keygen-IsStored disk disk_laws fixed (codes "keys/new") none (some (armour (key 4))) key_lines
      (inl generated)
