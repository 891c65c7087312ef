-- ===== src/Protocol/Client/Order.antt =====
-- Any history of calls on one `ClientHandshake`.
use secure_tunnel.Prelude.{
  ℕ, ◌+◌, ◌≤◌, ◌≡◌, subst, List, [], ◌∷◌, Option, some, none, Bool, true, false, Bytes, err, is_ok,
  if◌then◌else◌, arith,
}
use secure_tunnel.Protocol.Error.{handshake_order}
use secure_tunnel.Protocol.Noise.{Noise}
use secure_tunnel.Protocol.Client.{ClientHandshake, first_message, finish}

pub data Call : Type 0 where
  firsts : Call
  finishes : Bytes → Call

module _ (N : Noise) where
  open N use {SnowError}

  -- How many calls of a history yield a first message, and how many yield a transport.
  pub firsts_sent : List Call → ClientHandshake N → ℕ
  firsts_sent [] h = 0
  firsts_sent (firsts ∷ cs) h =
      (if is_ok (first_message N h).0 then 1 else 0) + firsts_sent cs (first_message N h).1
  firsts_sent (finishes bytes ∷ cs) h = firsts_sent cs (finish N bytes h).1

  pub sessions : List Call → ClientHandshake N → ℕ
  sessions [] h = 0
  sessions (firsts ∷ cs) h = sessions cs (first_message N h).1
  sessions (finishes bytes ∷ cs) h =
      (if is_ok (finish N bytes h).0 then 1 else 0) + sessions cs (finish N bytes h).1

  abbrev open_state {ℓ} : {A : Type ℓ} → Option A → ℕ
  open_state none = 0
  open_state (some a) = 1

  abbrev unsent : Bool → ℕ
  unsent true = 0
  unsent false = 1

  first_message-spends :
      (h : ClientHandshake N)
      → ((if is_ok (first_message N h).0 then 1 else 0) + unsent (first_message N h).1.sent_first
          ≤ unsent h.sent_first)
        × (open_state (first_message N h).1.state ≤ open_state h.state)
  unfolding first_message
  first_message-spends h = ground arith

  finish-spends :
      (bytes : Bytes) (h : ClientHandshake N)
      → ((finish N bytes h).1.sent_first ≡ h.sent_first)
        × ((if is_ok (finish N bytes h).0 then 1 else 0) + open_state (finish N bytes h).1.state
            ≤ open_state h.state)
  unfolding finish
  finish-spends bytes h = ground arith

  firsts_sent-le : (cs : List Call) (h : ClientHandshake N) → firsts_sent cs h ≤ unsent h.sent_first
  unfolding firsts_sent
  firsts_sent-le [] h = omega arith
  firsts_sent-le (firsts ∷ cs) h =
      omega (arith, (first_message-spends h).0, firsts_sent-le cs (first_message N h).1)
  firsts_sent-le (finishes bytes ∷ cs) h =
      subst (λ s. firsts_sent cs (finish N bytes h).1 ≤ unsent s) (finish-spends bytes h).0
        (firsts_sent-le cs (finish N bytes h).1)

  sessions-le : (cs : List Call) (h : ClientHandshake N) → sessions cs h ≤ open_state h.state
  unfolding sessions
  sessions-le [] h = omega arith
  sessions-le (firsts ∷ cs) h =
      omega (arith, (first_message-spends h).1, sessions-le cs (first_message N h).1)
  sessions-le (finishes bytes ∷ cs) h =
      omega (arith, (finish-spends bytes h).1, sessions-le cs (finish N bytes h).1)

  counts_le : (b : Bool) (o : Option N.HandshakeState) → (unsent b ≤ 1) × (open_state o ≤ 1)
  counts_le b o = ground arith

  -- Whatever is called in whatever order, a client handshake sends at most one first message and
  -- yields at most one transport.
  pub handshake_at_most_once :
      (cs : List Call) (h : ClientHandshake N) → (firsts_sent cs h ≤ 1) × (sessions cs h ≤ 1)
  handshake_at_most_once cs h =
      let small = counts_le h.sent_first h.state in
      (omega (arith, small.0, firsts_sent-le cs h), omega (arith, small.1, sessions-le cs h))

  -- No transport comes before the first message: the calls are refused as out of order, and a failed
  -- attempt at the first message leaves the handshake closed.
  pub finish_needs_first :
      (h : ClientHandshake N) (frame : Bytes)
      → h.sent_first ≡ false
      → (finish N frame h ≡ (err handshake_order, h))
        × (is_ok (first_message N h).0 ≡ false → (first_message N h).1.state ≡ none)
  unfolding finish first_message
  finish_needs_first h frame e = (ground arith, ground arith)
