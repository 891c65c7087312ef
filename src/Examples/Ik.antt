-- ===== src/Examples/Ik.antt =====
-- A concrete instance of the handshake's laws: the first message holds the client's key and the key
-- that it pins, the reply holds the server's key, and each side compares what it reads.
use secure_tunnel.Prelude.{
  ℕ, ◌+◌, ◌≡◌, ◌≢◌, refl, sym, [], ◌++◌, append-nil, Option, some, none, if◌then◌else◌, length,
  length-append, take, drop, take-append_length, drop-append_length, bytes_eq, bytes_eq_refl,
  bytes_eq→eq, Bool-cases, inl, inr, Text, codes, Bytes, Result, ok, err, arith,
}
use secure_tunnel.Protocol.Builder.{initiator, responder, noise_builder}
use secure_tunnel.Protocol.Noise.{Noise}
use secure_tunnel.Protocol.Session.Channel.{Channel}
use secure_tunnel.Protocol.Agreement.{Agreed, IsForeign, Agreement}
use secure_tunnel.Examples.Toy.{tag, open_tagged, open-tag}

pub data IkHandshake : Type 0 where
  initiating : Bytes → Bytes → IkHandshake
  responding : Bytes → Option Bytes → IkHandshake

abbrev pub write_ik : IkHandshake → Bytes
write_ik (initiating own pinned) = own ++ pinned
write_ik (responding own peer) = own

abbrev pub read_ik : IkHandshake → Bytes → Result Text (Bytes × IkHandshake)
read_ik (initiating own pinned) message =
    if bytes_eq message pinned then ok ([], initiating own pinned) else err (codes "decrypt error")
read_ik (responding own peer) message =
    if bytes_eq (drop 32 message) own
    then ok ([], responding own (some (take 32 message)))
    else err (codes "decrypt error")

abbrev pub peer_of : IkHandshake → Option Bytes
peer_of (initiating own pinned) = some pinned
peer_of (responding own peer) = peer

abbrev pub counted : ℕ → Result Text (Bytes × ℕ) → Result Text (Bytes × (ℕ × ℕ))
counted sent (ok (plaintext, received)) = ok (plaintext, (sent, received))
counted sent (err e) = err e

-- A transport counts what it has sent and what it has received.
abbrev pub ik : Noise
ik = record {
  SnowError = Text;
  Builder = Bytes × Bytes;
  HandshakeState = IkHandshake;
  TransportState = ℕ × ℕ;
  error_text = λ e. e;
  new_builder = λ params. ok ([], []);
  prologue = λ builder bytes. ok builder;
  local_private_key = λ builder key. ok (key, builder.1);
  remote_public_key = λ builder key. ok (builder.0, key);
  build_initiator = λ builder. ok (initiating builder.0 builder.1);
  build_responder = λ builder. ok (responding builder.0 none);
  generate_keypair = λ builder. ok builder;
  write_handshake = λ s payload size. ok (write_ik s ++ payload, s);
  read_handshake = λ s message size. read_ik s message;
  get_remote_static = peer_of;
  into_transport_mode = λ s. ok (0, 0);
  write_transport = λ t plaintext size. ok (plaintext ++ tag t.0, (t.0 + 1, t.1));
  read_transport = λ t bytes size. counted t.0 (open_tagged t.1 bytes);
}

-- What one side has sent the other has received.
abbrev pub ik_channel : Channel ik
ik_channel = record {
  Linked = λ n a b. a.0 ≡ b.1;
  carries = λ n a b plaintext same size. record {
    ciphertext = plaintext ++ tag a.0;
    sender = (a.0 + 1, a.1);
    receiver = (b.0, a.0 + 1);
    tagged = length-append plaintext (tag a.0);
    written = refl;
    read = rw (sym same, open-tag a.0 plaintext) refl;
    linked = refl;
  };
}

unfoldable pub ik_agreed :
    (C : Channel ik) (client server : Bytes)
    → length client ≡ 32
    → length server ≡ 32
    → Agreed ik C (λ key. key) client server
unfolding initiator responder noise_builder
ik_agreed C client server sized sized' = record {
  first = (client ++ server) ++ [];
  reply = server ++ [];
  client_start = initiating client server;
  client_sent = initiating client server;
  client_end = initiating client server;
  server_start = responding server none;
  server_read = responding server (some client);
  server_end = responding server (some client);
  client_transport = (0, 0);
  server_transport = (0, 0);
  first_payload = [];
  reply_payload = [];
  client_built = refl;
  first_written = refl;
  first_small = rw (append-nil (client ++ server)) (omega (arith, length-append client server));
  server_built = refl;
  first_read =
      rw
        (
          append-nil (client ++ server),
          drop-append_length 32 client server sized,
          take-append_length 32 client server sized,
          bytes_eq_refl server,
        )
        refl;
  client_known = refl;
  reply_written = refl;
  reply_small = rw (append-nil server) (omega arith);
  reply_read = rw (append-nil server, bytes_eq_refl server) refl;
  client_done = refl;
  server_done = refl;
}

pub ik-IsForeign :
    (C : Channel ik) (client server other : Bytes)
    → length client ≡ 32
    → other ≢ server
    → IsForeign ik C (λ key. key) ((client ++ server) ++ []) other
unfolding responder noise_builder
ik-IsForeign C client server other sized different = record {
  start = responding other none;
  error = codes "decrypt error";
  built = refl;
  refused =
      rw (append-nil (client ++ server), drop-append_length 32 client server sized)
        (elim (Bool-cases (bytes_eq server other)) [
          | inl same ↦ absurd (different (sym (bytes_eq→eq server other same)))
          | inr unlike ↦ rw unlike refl
        ]);
}

unfoldable pub ik_agreement : Agreement ik ik_channel
unfolding ik_agreed
ik_agreement = record {
  public_of = λ key. key;
  public_size = λ key sized. sized;
  agrees = ik_agreed ik_channel;
  forward = λ client server sized sized' n small. refl;
  backward = λ client server sized sized' n small. refl;
  foreign = λ client server other sized sized' long different.
      ik-IsForeign ik_channel client server other sized different;
}
