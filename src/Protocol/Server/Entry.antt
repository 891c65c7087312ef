-- ===== src/Protocol/Server/Entry.antt =====
-- What `new_with_static_identities` and `accept_preface` leave for `receive_client`.
use secure_tunnel.Prelude.{
  ◌≡◌, refl, inl, inr, ◌≤◌, ◌++◌, List, [], ◌∷◌, some, true, false, length, Bytes, ok, Result-cases,
  arith,
}
use secure_tunnel.Protocol.Error.{max_server_static_identities}
use secure_tunnel.Protocol.Preface.{v1, preface_bytes, encode, parse, parse_iff}
use secure_tunnel.Protocol.Noise.{Noise}
use secure_tunnel.Protocol.Server.{ServerHandshake, new_with_static_identities, accept_preface}

module _ (N : Noise) where
  open N use {SnowError}

  pub new-ok :
      (keys clients : List Bytes) (h : ServerHandshake N)
      → new_with_static_identities N keys clients ≡ ok h
      → (h.static_identities ≡ some keys) × (h.allow_list ≡ clients)
  unfolding new_with_static_identities
  new-ok keys clients h e = (ground arith, ground arith)

  pub accept_preface-ok :
      (preface : Bytes) (h : ServerHandshake N) (u : Unit {0})
      → (accept_preface N preface h).0 ≡ ok u
      → (preface ≡ preface_bytes)
        × ((accept_preface N preface h).1 ≡ record h { preface_accepted = true })
  unfolding accept_preface encode
  accept_preface-ok preface h u e = elim (Result-cases (parse {S = SnowError} preface)) [
    | inr (x, bad) ↦ absurd (ground arith)
    | inl (v1, good) ↦ ((parse_iff preface).0 good, ground arith)
  ]

  -- One to eight identities and the version 1 preface are accepted.
  pub new-identities :
      (before after clients : List Bytes) (key : Bytes)
      → length (before ++ key ∷ after) ≤ max_server_static_identities
      → new_with_static_identities N (before ++ key ∷ after) clients
        ≡ ok (record {
          static_identities = some (before ++ key ∷ after);
          allow_list = clients;
          preface_accepted = false;
        })
  unfolding new_with_static_identities
  new-identities [] after clients key few = ground arith
  new-identities (other ∷ before) after clients key few = ground arith

  pub accept_preface-v1 :
      (keys clients : List Bytes)
      → accept_preface N preface_bytes
          (record { static_identities = some keys; allow_list = clients; preface_accepted = false })
        ≡ (
          ok tt,
          record { static_identities = some keys; allow_list = clients; preface_accepted = true },
        )
  unfolding accept_preface parse
  accept_preface-v1 keys clients = refl
