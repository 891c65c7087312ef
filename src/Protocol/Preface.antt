-- ===== src/Protocol/Preface.antt =====
-- crates/secure-tunnel/src/lib.rs: the clear preface.
use secure_tunnel.Prelude.{
  ℕ, ◌≡◌, ◌≢◌, ◌⊎◌, ◌↔◌, ◌++◌, [], ◌∷◌, not, ◌||◌, ◌==◌, if◌then◌else◌, length, take, get_or, Bytes,
  bytes_eq, Result, ok, err, arith,
}
use secure_tunnel.Protocol.Error.{TunnelError, invalid_preface, unsupported_version}

pub data Preface : Type 0 where
  v1 : Preface

abbrev pub preface_bytes : Bytes
preface_bytes = b'C' ∷ b'D' ∷ b'X' ∷ b'T' ∷ 1 ∷ 0 ∷ []

unfoldable pub encode : Preface → Bytes
encode p = preface_bytes

module _ {S : Type 0} where
  unfoldable pub parse : Bytes → Result (TunnelError S) Preface
  parse value =
      if not (length value == length preface_bytes)
        || not (bytes_eq (take 4 value) (take 4 preface_bytes))
      then err invalid_preface
      else if not (get_or value 4 0 == 1)
      then err (unsupported_version (get_or value 4 0) (get_or value 5 0))
      else if not (get_or value 5 0 == 0)
      then err (unsupported_version (get_or value 4 0) (get_or value 5 0))
      else ok v1

  -- The value has six bytes, one for each byte of the preface.
  accepted : (value : Bytes) → parse value ≡ ok v1 → value ≡ preface_bytes
  unfolding parse
  accepted [] h = ground arith
  accepted (a ∷ []) h = ground arith
  accepted (a ∷ b ∷ []) h = ground arith
  accepted (a ∷ b ∷ c ∷ []) h = ground arith
  accepted (a ∷ b ∷ c ∷ d ∷ []) h = ground arith
  accepted (a ∷ b ∷ c ∷ d ∷ e ∷ []) h = ground arith
  accepted (a ∷ b ∷ c ∷ d ∷ e ∷ f ∷ []) h = ground arith
  accepted (a ∷ b ∷ c ∷ d ∷ e ∷ f ∷ g ∷ rest) h = ground arith

  -- A preface is accepted exactly when it is, byte for byte, the version 1 preface.
  pub parse_iff : (value : Bytes) → (parse value ≡ ok v1) ↔ (value ≡ encode v1)
  unfolding parse encode
  parse_iff value = (accepted value, λ e. rw e)

  -- Behind the right magic every other version is reported as unsupported with its two numbers.
  pub parse_version :
      (major minor : ℕ)
      → major ≢ 1 ⊎ minor ≢ 0
      → parse (take 4 preface_bytes ++ major ∷ minor ∷ []) ≡ err (unsupported_version major minor)
  unfolding parse
  parse_version major minor h = ground arith
