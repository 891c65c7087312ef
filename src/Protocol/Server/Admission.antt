-- ===== src/Protocol/Server/Admission.antt =====
-- Whom the ingress answers: `receive_client` and its loop over the server's identities.
use secure_tunnel.Prelude.{
  ◌≡◌, refl, ◌⊎◌, inl, inr, List, [], ◌∷◌, Option, some, none, Bool, true, false, contains_key,
  Bytes, ok, err, Result-cases, Option-cases, arith,
}
use secure_tunnel.Protocol.Error.{TunnelError, closed_session, max_handshake_message}
use secure_tunnel.Protocol.Frame.{decode_handshake_frame}
use secure_tunnel.Protocol.Noise.{Noise}
use secure_tunnel.Protocol.Builder.{responder}
use secure_tunnel.Protocol.Server.{
  returned, ServerHandshake, ServerReply, Attempt, accepts, disallows, fails, stops, attempt,
  try_identities, receive_client, remote_key,
}

-- An identity of the list, with what stands before it.
pub data Chosen {ℓ} {A : Type 0} (P Q : A → Type ℓ) : List A → Type ℓ where
  here : {x : A} {xs : List A} → Q x → Chosen P Q (x ∷ xs)
  there : {x : A} {xs : List A} → P x → Chosen P Q xs → Chosen P Q (x ∷ xs)

module _ (N : Noise) where
  open N use {SnowError, HandshakeState, read_handshake}

  -- The handshake message authenticates, under the server identity `key`, a client whose 32-byte key
  -- is on the allow-list.
  pub record Admits (allow_list : List Bytes) (message : Bytes) (key : Bytes) (s : HandshakeState)
      : Type 0 where
    pub start : HandshakeState
    pub payload : Bytes
    pub remote : Bytes
    pub built : responder N key ≡ ok start
    pub authenticated : read_handshake start message max_handshake_message ≡ ok (payload, s)
    pub revealed : remote_key N s ≡ ok remote
    pub listed : contains_key allow_list remote ≡ true

  attempt-accepts :
      (allow_list : List Bytes) (message key : Bytes) (s : HandshakeState)
      → attempt N allow_list message key ≡ accepts s
      → Admits allow_list message key s
  unfolding attempt
  attempt-accepts allow_list message key s h = elim (Result-cases (responder N key)) [
    | inr (e, failed) ↦ absurd (ground arith)
    | inl (start, built) ↦
        elim (Result-cases (read_handshake start message max_handshake_message)) [
          | inr (e, failed) ↦ absurd (ground arith)
          | inl ((payload, s'), read) ↦ elim (Result-cases (remote_key N s')) [
            | inr (e, failed) ↦ absurd (ground arith)
            | inl (remote, revealed) ↦ record {
              start = start;
              payload = payload;
              remote = remote;
              built = built;
              authenticated = ground arith;
              revealed = ground arith;
              listed = ground arith;
            }
          ]
        ]
  ]

  pub Attempt-cases :
      (a : Attempt N)
      → ((s : HandshakeState) × (a ≡ accepts s))
        ⊎ (a ≡ disallows)
        ⊎ ((e : SnowError) × (a ≡ fails e))
        ⊎ ((e : TunnelError SnowError) × (a ≡ stops e))
  Attempt-cases (accepts s) = inl (s, refl)
  Attempt-cases disallows = inr (inl refl)
  Attempt-cases (fails e) = inr (inr (inl (e, refl)))
  Attempt-cases (stops e) = inr (inr (inr (e, refl)))

  -- An identity that leaves the loop running.
  abbrev pub Passes : List Bytes → Bytes → Bytes → Type 0
  Passes allow_list message key =
      (attempt N allow_list message key ≡ disallows)
      ⊎ ((e : SnowError) × (attempt N allow_list message key ≡ fails e))

  abbrev pub Replies : List Bytes → Bytes → ServerReply N → Bytes → Type 0
  Replies allow_list message reply key =
      (s : HandshakeState) × Admits allow_list message key s
      × (reply ≡ record { state = some s; sent_reply = false })

  try_identities-Chosen :
      (allow_list : List Bytes) (message : Bytes) (keys : List Bytes) (u : Bool)
      (last : Option SnowError) (reply : ServerReply N)
      → try_identities N allow_list message keys u last ≡ ok reply
      → Chosen (Passes allow_list message) (Replies allow_list message reply) keys
  unfolding try_identities
  try_identities-Chosen allow_list message [] u last reply h = cc
  try_identities-Chosen allow_list message (key ∷ keys) u last reply h =
      elim (Attempt-cases (attempt N allow_list message key)) [
        | inl (s, e) ↦ here (s, attempt-accepts allow_list message key s e, ground arith)
        | inr (inl e) ↦ there (inl e) (
            try_identities-Chosen allow_list message keys true last reply
              (rw (e, try_identities) at h))
        | inr (inr (inl (x, e))) ↦ there (inr (x, e)) (
            try_identities-Chosen allow_list message keys u (some x) reply
              (rw (e, try_identities) at h))
        | inr (inr (inr (x, e))) ↦ absurd (ground arith)
      ]

  -- A reply is given only after the preface was accepted, to a message that authenticates an
  -- allow-listed client under one of the server's identities, every identity before it having failed
  -- or met a client that is not listed.
  pub receive_client-Chosen :
      (h : ServerHandshake N) (frame : Bytes) {reply : ServerReply N}
      → (receive_client N frame h).0 ≡ ok reply
      → (h.preface_accepted ≡ true)
        × (message : Bytes) × (decode_handshake_frame {S = SnowError} frame ≡ ok message)
        × (keys : List Bytes) × (h.static_identities ≡ some keys)
        × Chosen (Passes h.allow_list message) (Replies h.allow_list message reply) keys
  unfolding receive_client
  receive_client-Chosen h frame {reply} e =
      elim (Result-cases (decode_handshake_frame {S = SnowError} frame)) [
        | inr (x, bad) ↦ absurd (ground arith)
        | inl (message, decoded) ↦ elim (Option-cases h.static_identities) [
          | inl used ↦ absurd (ground arith)
          | inr (keys, unused) ↦ (
            ground arith,
            message,
            decoded,
            keys,
            unused,
            try_identities-Chosen h.allow_list message keys false none reply (ground arith),
          )
        ]
      ]

  -- Once the preface has been accepted, the identities are given up by the first frame that
  -- decodes: whatever came of it, the next frame that decodes is answered by `ClosedSession`.
  receive_client_once :
      (h : ServerHandshake N) (frame frame' : Bytes) {message message' : Bytes}
      → h.preface_accepted ≡ true
      → decode_handshake_frame {S = SnowError} frame ≡ ok message
      → decode_handshake_frame {S = SnowError} frame' ≡ ok message'
      → (receive_client N frame' (receive_client N frame h).1).0 ≡ err (returned closed_session)
  unfolding receive_client
  receive_client_once h frame frame' accepted first second = ground arith
