-- ===== src/Protocol/Noise.antt =====
-- The Noise library (snow), which is not part of the repository: its operations as the program calls
-- them.  A write or read into a buffer of a given size returns the bytes that it put there.
use secure_tunnel.Prelude.{ℕ, Option, Text, Bytes, Result}

pub record Noise : Type 1 where
  pub SnowError : Type 0
  pub Builder : Type 0
  pub HandshakeState : Type 0
  pub TransportState : Type 0
  pub error_text : SnowError → Text
  -- `Builder::new(params.parse()?)`
  pub new_builder : Text → Result SnowError Builder
  pub prologue : Builder → Bytes → Result SnowError Builder
  pub local_private_key : Builder → Bytes → Result SnowError Builder
  pub remote_public_key : Builder → Bytes → Result SnowError Builder
  pub build_initiator : Builder → Result SnowError HandshakeState
  pub build_responder : Builder → Result SnowError HandshakeState
  -- The private and the public key.
  pub generate_keypair : Builder → Result SnowError (Bytes × Bytes)
  pub write_handshake : HandshakeState → Bytes → ℕ → Result SnowError (Bytes × HandshakeState)
  pub read_handshake : HandshakeState → Bytes → ℕ → Result SnowError (Bytes × HandshakeState)
  pub get_remote_static : HandshakeState → Option Bytes
  pub into_transport_mode : HandshakeState → Result SnowError TransportState
  pub write_transport : TransportState → Bytes → ℕ → Result SnowError (Bytes × TransportState)
  pub read_transport : TransportState → Bytes → ℕ → Result SnowError (Bytes × TransportState)
