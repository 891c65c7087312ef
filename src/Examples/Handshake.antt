-- ===== src/Examples/Handshake.antt =====
-- The handshake over the toy cipher.
use secure_tunnel.Prelude.{
  ℕ, ◌≤◌, ◌≡◌, ◌≢◌, refl, List, [], ◌∷◌, some, none, true, false, length, Bytes, Text, codes, ok,
  err,
}
use secure_tunnel.Protocol.Error.{max_handshake_message}
use secure_tunnel.Protocol.Preface.{preface_bytes}
use secure_tunnel.Protocol.Frame.{encode_handshake_frame, decode_handshake_frame}
use secure_tunnel.Protocol.Builder.{initiator, responder, noise_builder, to_array32}
use secure_tunnel.Protocol.Client.{ClientHandshake, first_message}
use secure_tunnel.Protocol.Client.Order.{
  firsts, finishes, firsts_sent, sessions, handshake_at_most_once,
}
use secure_tunnel.Protocol.Server.{
  panicked, ServerHandshake, ServerReply, new_with_static_identities, receive_client,
  try_identities, attempt, remote_key,
}
use secure_tunnel.Protocol.Server.Admission.{Chosen, Passes, Replies, receive_client-Chosen}
use secure_tunnel.Protocol.Server.Order.{
  offers_preface, offers_frame, after_all, replies, IsReady, receive_client_never_panics,
  replies_at_most_once,
}
use secure_tunnel.Protocol.Client
use secure_tunnel.Tunnel.Io.{Input, silent, read_exact}
use secure_tunnel.Tunnel.Frames.{read_handshake_frame}
use secure_tunnel.Tunnel.Frames.Wire.{input}
use secure_tunnel.Tunnel.Egress.{complete_noise_handshake}
use secure_tunnel.Tunnel.Egress.Greeting.{unwritten, complete_noise_handshake_understood}
use secure_tunnel.Examples.Toy.{toy}

abbrev pub repeat : ℕ → Bytes → Bytes
repeat b tail = b ∷ b ∷ b ∷ b ∷ b ∷ b ∷ b ∷ b ∷ tail

-- Keys of 32 equal bytes.
abbrev pub key : ℕ → Bytes
key b = repeat b (repeat b (repeat b (repeat b [])))

abbrev pub hello : Bytes
hello = 0 ∷ 32 ∷ key 5

abbrev pub waiting : ServerHandshake toy
waiting = record {
  static_identities = some (key 1 ∷ key 2 ∷ []);
  allow_list = key 5 ∷ [];
  preface_accepted = true;
}

abbrev reply : ServerReply toy
reply = record { state = some (record { own = key 1; peer = some (key 5) }); sent_reply = false }

hello-decodes : decode_handshake_frame {S = Text} hello ≡ ok (key 5)
unfolding decode_handshake_frame
hello-decodes = refl

hello-answered : (receive_client toy hello waiting).0 ≡ ok reply
unfolding receive_client try_identities attempt remote_key responder noise_builder to_array32
    decode_handshake_frame
hello-answered = refl

receive_client-Chosen_example :
    (true ≡ true)
    × (message : Bytes) × (decode_handshake_frame {S = Text} hello ≡ ok message)
    × (keys : List Bytes) × (some (key 1 ∷ key 2 ∷ []) ≡ some keys)
    × Chosen (Passes toy (key 5 ∷ []) message) (Replies toy (key 5 ∷ []) message reply) keys
receive_client-Chosen_example = receive_client-Chosen toy waiting hello hello-answered

made :
    new_with_static_identities toy (key 1 ∷ key 2 ∷ []) (key 5 ∷ [])
    ≡ ok (record {
      static_identities = some (key 1 ∷ key 2 ∷ []);
      allow_list = key 5 ∷ [];
      preface_accepted = false;
    })
unfolding new_with_static_identities
made = refl

abbrev fresh : ServerHandshake toy
fresh = record {
  static_identities = some (key 1 ∷ key 2 ∷ []);
  allow_list = key 5 ∷ [];
  preface_accepted = false;
}

receive_client_never_panics_example :
    ((receive_client toy hello (after_all toy (offers_preface preface_bytes ∷ []) fresh)).0
      ≢ err panicked)
    × IsReady toy (after_all toy (offers_preface preface_bytes ∷ []) fresh).static_identities
receive_client_never_panics_example =
    receive_client_never_panics toy (key 1 ∷ key 2 ∷ []) (key 5 ∷ []) fresh
      (offers_preface preface_bytes ∷ []) hello made

replies_at_most_once_example :
    replies toy (offers_frame hello ∷ offers_frame hello ∷ []) waiting ≤ 1
replies_at_most_once_example =
    replies_at_most_once toy (offers_frame hello ∷ offers_frame hello ∷ []) waiting

abbrev starting : ClientHandshake toy
starting = record { state = some (record { own = key 5; peer = none }); sent_first = false }

handshake_at_most_once_example :
    (firsts_sent toy (firsts ∷ finishes hello ∷ firsts ∷ []) starting ≤ 1)
    × (sessions toy (firsts ∷ finishes hello ∷ firsts ∷ []) starting ≤ 1)
handshake_at_most_once_example =
    handshake_at_most_once toy (firsts ∷ finishes hello ∷ firsts ∷ []) starting

begun : Client.new toy (key 5) (key 1) ≡ ok starting
unfolding Client.new initiator noise_builder
begun = refl

greeted : (first_message toy starting).0 ≡ ok hello
unfolding first_message encode_handshake_frame
greeted = refl

abbrev silence : Input
silence = record { bytes = []; ending = silent }

complete_noise_handshake_understood_example :
    let sent =
      (complete_noise_handshake toy
        (key 5)
        (key 1)
        (record { in_time = true; elapsed = codes "deadline has elapsed" })
        (unwritten toy silence false)).1.outgoing.written in
    (read_exact 6 (input sent silent) ≡ (ok preface_bytes, input hello silent))
    × (read_handshake_frame (input hello silent) ≡ (ok hello, input [] silent))
    × (message : Bytes) × (decode_handshake_frame {S = Text} hello ≡ ok message)
    × (length message ≤ max_handshake_message)
complete_noise_handshake_understood_example =
    complete_noise_handshake_understood toy (key 5) (key 1)
      (record { in_time = true; elapsed = codes "deadline has elapsed" }) silence false silent
      starting hello begun greeted
