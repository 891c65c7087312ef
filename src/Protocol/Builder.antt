-- ===== src/Protocol/Builder.antt =====
-- crates/secure-tunnel/src/lib.rs: identities, and the chains of builder calls.
use secure_tunnel.Prelude.{
  ◌≡◌, refl, [], ◌∷◌, ◌++◌, decimal, ◌==◌, if◌then◌else◌, length, Text, codes, Bytes, Result, ok,
  err, map_err, ◌>>=◌,
}
use secure_tunnel.Protocol.Error.{TunnelError, invalid_key_material, noise}
use secure_tunnel.Protocol.Preface.{preface_bytes}
use secure_tunnel.Protocol.Noise.{Noise}

abbrev pub noise_params : Text
noise_params = codes "Noise_IK_25519_ChaChaPoly_SHA256"

pub record StaticKeypair : Type 0 where
  pub private : Bytes
  pub public : Bytes

abbrev pub private_key : StaticKeypair → Bytes
private_key k = k.private

abbrev pub public_key : StaticKeypair → Bytes
public_key k = k.public

abbrev into_parts : StaticKeypair → Bytes × Bytes
into_parts k = (k.private, k.public)

-- `{:?}` of an array of bytes.
abbrev show_rest : Bytes → Text
show_rest [] = codes "]"
show_rest (b ∷ bs) = codes ", " ++ (decimal b ++ show_rest bs)

abbrev show_bytes : Bytes → Text
show_bytes [] = codes "[]"
show_bytes (b ∷ bs) = codes "[" ++ (decimal b ++ show_rest bs)

-- `{:?}` of a key pair.
fmt : StaticKeypair → Text
fmt k =
    codes "StaticKeypair { private: \"[REDACTED]\", public: " ++ (show_bytes k.public ++ codes " }")

-- What is shown of a key pair does not depend on its private key.
fmt_redacts : (k k' : StaticKeypair) → public_key k ≡ public_key k' → fmt k ≡ fmt k'
unfolding fmt
fmt_redacts k k' same = rw same refl

-- `try_into` an array of 32 bytes.
unfoldable pub to_array32 {ℓ} : {E : Type ℓ} → E → Bytes → Result E Bytes
to_array32 e bytes = if length bytes == 32 then ok bytes else err e

module _ (N : Noise) where
  open N use {
    SnowError, Builder, HandshakeState, new_builder, prologue, local_private_key, remote_public_key,
    build_initiator, build_responder,
  }

  unfoldable pub noise_builder : Result (TunnelError SnowError) Builder
  noise_builder = do
    builder ← map_err noise (new_builder noise_params)
    map_err noise (prologue builder preface_bytes)

  unfoldable pub generate_keypair : Result (TunnelError SnowError) StaticKeypair
  unfolding to_array32
  generate_keypair = do
    builder ← noise_builder
    (private, public) ← map_err noise (N.generate_keypair builder)
    private' ← to_array32 invalid_key_material private
    public' ← to_array32 invalid_key_material public
    ok (record { private = private'; public = public' })

  -- The chain in `ClientHandshake::new`.
  unfoldable pub initiator : Bytes → Bytes → Result (TunnelError SnowError) HandshakeState
  initiator client_private pinned_server = do
    builder ← noise_builder
    builder' ← map_err noise (local_private_key builder client_private)
    builder'' ← map_err noise (remote_public_key builder' pinned_server)
    map_err noise (build_initiator builder'')

  -- The chain in the loop of `ServerHandshake::receive_client`.
  unfoldable pub responder : Bytes → Result (TunnelError SnowError) HandshakeState
  responder server_private = do
    builder ← noise_builder
    builder' ← map_err noise (local_private_key builder server_private)
    map_err noise (build_responder builder')
