-- ===== src/Examples/Toy.antt =====
-- A concrete instance of the Noise library's interface: messages in the clear, with a tag that counts
-- the records.
use secure_tunnel.Prelude.{
  ℕ, ◌+◌, ◌-◌, ◌≡◌, refl, sym, [], ◌∷◌, ◌++◌, Option, some, none, true, ◌==◌, ◌&&◌, leb,
  if◌then◌else◌, length, length-append, take, drop, take-append_length, drop-append_length,
  bytes_eq, bytes_eq_refl, Text, codes, Bytes, Result, ok, err, arith,
}
use secure_tunnel.Protocol.Noise.{Noise}
use secure_tunnel.Protocol.Session.Channel.{Channel}

pub record ToyHandshake : Type 0 where
  pub own : Bytes
  pub peer : Option Bytes

abbrev pub tag : ℕ → Bytes
tag n = n ∷ 0 ∷ 0 ∷ 0 ∷ 0 ∷ 0 ∷ 0 ∷ 0 ∷ 0 ∷ 0 ∷ 0 ∷ 0 ∷ 0 ∷ 0 ∷ 0 ∷ 0 ∷ []

abbrev pub open_tagged : ℕ → Bytes → Result Text (Bytes × ℕ)
open_tagged n bytes =
    if leb 16 (length bytes) && bytes_eq (drop (length bytes - 16) bytes) (tag n)
    then ok (take (length bytes - 16) bytes, n + 1)
    else err (codes "decrypt error")

-- A handshake message is the sender's key; a state is its own key and the peer's.
abbrev pub toy : Noise
toy = record {
  SnowError = Text;
  Builder = Bytes;
  HandshakeState = ToyHandshake;
  TransportState = ℕ;
  error_text = λ e. e;
  new_builder = λ params. ok [];
  prologue = λ builder bytes. ok builder;
  local_private_key = λ builder key. ok key;
  remote_public_key = λ builder key. ok builder;
  build_initiator = λ key. ok (record { own = key; peer = none });
  build_responder = λ key. ok (record { own = key; peer = none });
  generate_keypair = λ builder. ok (builder, builder);
  write_handshake = λ s payload size. ok (s.own ++ payload, s);
  read_handshake = λ s message size.
      if length message == 32
      then ok ([], record s { peer = some message })
      else err (codes "decrypt error");
  get_remote_static = λ s. s.peer;
  into_transport_mode = λ s. ok 0;
  write_transport = λ n plaintext size. ok (plaintext ++ tag n, n + 1);
  read_transport = λ n bytes size. open_tagged n bytes;
}

pub open-tag :
    (n : ℕ) (plaintext : Bytes) → open_tagged n (plaintext ++ tag n) ≡ ok (plaintext, n + 1)
open-tag n plaintext =
    rw
      (
        whole,
        shorter,
        drop-append_length (length plaintext) plaintext (tag n) refl,
        take-append_length (length plaintext) plaintext (tag n) refl,
        bytes_eq_refl (tag n),
      )
      refl
  where
    whole : leb 16 (length (plaintext ++ tag n)) ≡ true
    whole = ground (arith, length-append plaintext (tag n))

    shorter : length (plaintext ++ tag n) - 16 ≡ length plaintext
    shorter = omega (arith, length-append plaintext (tag n))

-- Two counters that agree are in step for ever.
abbrev pub toy_channel : Channel toy
toy_channel = record {
  Linked = λ n a b. a ≡ b;
  carries = λ n a b plaintext same size. record {
    ciphertext = plaintext ++ tag a;
    sender = a + 1;
    receiver = a + 1;
    tagged = length-append plaintext (tag a);
    written = refl;
    read = rw (sym same) (open-tag a plaintext);
    linked = refl;
  };
}
