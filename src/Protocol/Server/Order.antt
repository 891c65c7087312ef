-- ===== src/Protocol/Server/Order.antt =====
-- Any history of calls on one `ServerHandshake`, and the order of the calls on a reply.
use secure_tunnel.Prelude.{
  ℕ, ◌+◌, ◌≤◌, ◌≡◌, refl, ◌≢◌, ◌⊎◌, inl, inr, subst, List, [], ◌∷◌, Option, some, none, Bool, true,
  false, length, Bytes, ok, err, is_ok, if◌then◌else◌, Result-cases, Option-cases, arith,
}
use secure_tunnel.Protocol.Error.{max_server_static_identities}
use secure_tunnel.Protocol.Frame.{decode_handshake_frame}
use secure_tunnel.Protocol.Noise.{Noise}
use secure_tunnel.Protocol.Server.{
  panicked, ServerHandshake, attempt, try_identities, receive_client, new_with_static_identities,
  accept_preface,
}
use secure_tunnel.Protocol.Server.Admission.{Attempt-cases}

pub data Call : Type 0 where
  offers_preface : Bytes → Call
  offers_frame : Bytes → Call

-- The loop has something to report once an identity has failed or has met an unlisted client.
abbrev settled {ℓ} : {A : Type ℓ} → Bool → Option A → Bool
settled true last = true
settled false none = false
settled false (some e) = true

module _ (N : Noise) where
  open N use {SnowError}

  pub after : Call → ServerHandshake N → ServerHandshake N
  after (offers_preface bytes) h = (accept_preface N bytes h).1
  after (offers_frame bytes) h = (receive_client N bytes h).1

  pub after_all : List Call → ServerHandshake N → ServerHandshake N
  after_all [] h = h
  after_all (c ∷ cs) h = after_all cs (after c h)

  -- How many calls of a history are answered by a reply.
  pub replies : List Call → ServerHandshake N → ℕ
  replies [] h = 0
  replies (offers_preface bytes ∷ cs) h = replies cs (after (offers_preface bytes) h)
  replies (offers_frame bytes ∷ cs) h =
      (if is_ok (receive_client N bytes h).0 then 1 else 0)
      + replies cs (after (offers_frame bytes) h)

  settled-ne-panicked :
      (allow_list : List Bytes) (frame : Bytes) (keys : List Bytes) (u : Bool)
      (last : Option SnowError)
      → settled u last ≡ true
      → try_identities N allow_list frame keys u last ≢ err panicked
  unfolding try_identities
  settled-ne-panicked allow_list frame [] true last s = λ h. cc
  settled-ne-panicked allow_list frame [] false none s = λ h. cc
  settled-ne-panicked allow_list frame [] false (some e) s = λ h. cc
  settled-ne-panicked allow_list frame (key ∷ keys) u last s =
      elim (Attempt-cases N (attempt N allow_list frame key)) [
        | inl (x, e) ↦ ground arith
        | inr (inl e) ↦ ground (arith, settled-ne-panicked allow_list frame keys true last refl)
        | inr (inr (inl (x, e))) ↦
            ground (arith, settled-ne-panicked allow_list frame keys u (some x))
        | inr (inr (inr (x, e))) ↦ ground arith
      ]

  first-ne-panicked :
      (allow_list : List Bytes) (frame : Bytes) (keys : List Bytes)
      → keys ≢ []
      → try_identities N allow_list frame keys false none ≢ err panicked
  unfolding try_identities
  first-ne-panicked allow_list frame [] h = absurd (h refl)
  first-ne-panicked allow_list frame (key ∷ keys) h =
      elim (Attempt-cases N (attempt N allow_list frame key)) [
        | inl (x, e) ↦ ground arith
        | inr (inl e) ↦ ground (arith, settled-ne-panicked allow_list frame keys true none refl)
        | inr (inr (inl (x, e))) ↦
            ground (arith, settled-ne-panicked allow_list frame keys false (some x) refl)
        | inr (inr (inr (x, e))) ↦ ground arith
      ]

  -- The identities are used up, or between one and eight.
  abbrev pub IsReady : Option (List Bytes) → Type 0
  IsReady none = Unit {0}
  IsReady (some []) = ⊥
  IsReady (some (key ∷ keys)) = length (key ∷ keys) ≤ max_server_static_identities

  new-IsReady :
      (privates clients : List Bytes) (h : ServerHandshake N)
      → new_with_static_identities N privates clients ≡ ok h
      → IsReady h.static_identities
  unfolding new_with_static_identities
  new-IsReady [] clients h e = cc
  new-IsReady (key ∷ keys) clients h e = ground arith

  receive_client-identities :
      (bytes : Bytes) (h : ServerHandshake N)
      → let ids = (receive_client N bytes h).1.static_identities in
        (ids ≡ h.static_identities) ⊎ (ids ≡ none)
  unfolding receive_client
  receive_client-identities bytes h = ground arith

  accept_preface-identities :
      (bytes : Bytes) (h : ServerHandshake N)
      → (accept_preface N bytes h).1.static_identities ≡ h.static_identities
  unfolding accept_preface
  accept_preface-identities bytes h = ground arith

  after-IsReady :
      (c : Call) (h : ServerHandshake N)
      → IsReady h.static_identities
      → IsReady (after c h).static_identities
  unfolding after
  after-IsReady (offers_preface bytes) h r = rw (accept_preface-identities bytes h) r
  after-IsReady (offers_frame bytes) h r = elim (receive_client-identities bytes h) [
    | inl e ↦ rw e r
    | inr e ↦ rw e tt
  ]

  after_all-IsReady :
      (cs : List Call) (h : ServerHandshake N)
      → IsReady h.static_identities
      → IsReady (after_all cs h).static_identities
  unfolding after_all
  after_all-IsReady [] h r = r
  after_all-IsReady (c ∷ cs) h r = after_all-IsReady cs (after c h) (after-IsReady c h r)

  nonempty : (keys : List Bytes) → IsReady (some keys) → keys ≢ []
  nonempty [] r = absurd r
  nonempty (key ∷ keys) r = λ e. cc

  ready-ne-panicked :
      (bytes : Bytes) (h : ServerHandshake N)
      → IsReady h.static_identities
      → (receive_client N bytes h).0 ≢ err panicked
  unfolding receive_client
  ready-ne-panicked bytes h r = elim (Result-cases (decode_handshake_frame {S = SnowError} bytes)) [
    | inr (e, bad) ↦ ground arith
    | inl (m, decoded) ↦ elim (Option-cases h.static_identities) [
      | inl none_left ↦ ground arith
      | inr (keys, left) ↦
          ground (arith, first-ne-panicked h.allow_list m keys (nonempty keys (rw left at r)))
    ]
  ]

  -- The `expect` of the loop never fails: whatever was called before on a handshake that the
  -- constructor returned, `receive_client` does not panic, and it tries at most eight identities.
  pub receive_client_never_panics :
      (privates clients : List Bytes) (h : ServerHandshake N) (cs : List Call) (frame : Bytes)
      → new_with_static_identities N privates clients ≡ ok h
      → ((receive_client N frame (after_all cs h)).0 ≢ err panicked)
        × IsReady (after_all cs h).static_identities
  receive_client_never_panics privates clients h cs frame e =
      let r = after_all-IsReady cs h (new-IsReady privates clients h e) in
      (ready-ne-panicked frame (after_all cs h) r, r)

  abbrev unspent : Option (List Bytes) → ℕ
  unspent none = 0
  unspent (some keys) = 1

  receive_client-spends :
      (bytes : Bytes) (h : ServerHandshake N)
      → (if is_ok (receive_client N bytes h).0 then 1 else 0)
          + unspent (receive_client N bytes h).1.static_identities
        ≤ unspent h.static_identities
  unfolding receive_client
  receive_client-spends bytes h = ground arith

  replies-le-unspent :
      (cs : List Call) (h : ServerHandshake N) → replies cs h ≤ unspent h.static_identities
  unfolding replies after
  replies-le-unspent [] h = omega arith
  replies-le-unspent (offers_preface bytes ∷ cs) h =
      subst (λ ids. replies cs (accept_preface N bytes h).1 ≤ unspent ids)
        (accept_preface-identities bytes h) (replies-le-unspent cs (accept_preface N bytes h).1)
  replies-le-unspent (offers_frame bytes ∷ cs) h =
      omega
        (arith, receive_client-spends bytes h, replies-le-unspent cs (receive_client N bytes h).1)

  unspent_le : (ids : Option (List Bytes)) → unspent ids ≤ 1
  unspent_le none = omega arith
  unspent_le (some keys) = omega arith

  -- A connection gets at most one reply, whatever prefaces and frames it offers in whatever order.
  pub replies_at_most_once : (cs : List Call) (h : ServerHandshake N) → replies cs h ≤ 1
  replies_at_most_once cs h = omega (arith, replies-le-unspent cs h, unspent_le h.static_identities)
