-- ===== src/Protocol/Agreement.antt =====
-- What the program relies on of the Noise library's handshake: an initiator and a responder that the
-- program builds for each other's keys agree on two transports that are in step.
pub mod Handshaking
use secure_tunnel.Prelude.{
  ℕ, ◌≤◌, ◌<◌, ◌^◌, ◌≡◌, ◌≢◌, [], Option, some, List, Bytes, length, ok, err, All,
}
use secure_tunnel.Protocol.Error.{max_handshake_message}
use secure_tunnel.Protocol.Noise.{Noise}
use secure_tunnel.Protocol.Builder.{initiator, responder}
use secure_tunnel.Protocol.Session.Channel.{Channel}

module _ (N : Noise) (C : Channel N) (public_of : Bytes → Bytes) where
  open N use {
    SnowError, HandshakeState, TransportState, write_handshake, read_handshake, get_remote_static,
    into_transport_mode,
  }

  -- One handshake between the private keys `client` and `server`: the two messages, and the states
  -- before, between and after them.
  pub record Agreed (client server : Bytes) : Type 0 where
    pub first : Bytes
    pub reply : Bytes
    pub client_start : HandshakeState
    pub client_sent : HandshakeState
    pub client_end : HandshakeState
    pub server_start : HandshakeState
    pub server_read : HandshakeState
    pub server_end : HandshakeState
    pub client_transport : TransportState
    pub server_transport : TransportState
    pub first_payload : Bytes
    pub reply_payload : Bytes
    pub client_built : initiator N client (public_of server) ≡ ok client_start
    pub first_written :
        write_handshake client_start [] max_handshake_message ≡ ok (first, client_sent)
    pub first_small : length first ≤ max_handshake_message
    pub server_built : responder N server ≡ ok server_start
    pub first_read :
        read_handshake server_start first max_handshake_message ≡ ok (first_payload, server_read)
    pub client_known : get_remote_static server_read ≡ some (public_of client)
    pub reply_written :
        write_handshake server_read [] max_handshake_message ≡ ok (reply, server_end)
    pub reply_small : length reply ≤ max_handshake_message
    pub reply_read :
        read_handshake client_sent reply max_handshake_message ≡ ok (reply_payload, client_end)
    pub client_done : into_transport_mode client_end ≡ ok client_transport
    pub server_done : into_transport_mode server_end ≡ ok server_transport

  -- A responder with another identity does not understand the first message.
  pub record IsForeign (message other : Bytes) : Type 0 where
    pub start : HandshakeState
    pub error : SnowError
    pub built : responder N other ≡ ok start
    pub refused : read_handshake start message max_handshake_message ≡ err error

-- Keys have 32 bytes.  Nonces count from 0 to 2^64 - 2 in each direction.
pub record Agreement (N : Noise) (C : Channel N) : Type 1 where
  pub public_of : Bytes → Bytes
  pub public_size : (private : Bytes) → length private ≡ 32 → length (public_of private) ≡ 32
  pub agrees :
      (client server : Bytes)
      → length client ≡ 32
      → length server ≡ 32
      → Agreed N C public_of client server
  pub forward :
      (client server : Bytes) (sized : length client ≡ 32) (sized' : length server ≡ 32) (n : ℕ)
      → n < 2 ^ 64
      → let h = agrees client server sized sized' in
        C.Linked n h.client_transport h.server_transport
  pub backward :
      (client server : Bytes) (sized : length client ≡ 32) (sized' : length server ≡ 32) (n : ℕ)
      → n < 2 ^ 64
      → let h = agrees client server sized sized' in
        C.Linked n h.server_transport h.client_transport
  pub foreign :
      (client server other : Bytes) (sized : length client ≡ 32) (sized' : length server ≡ 32)
      → length other ≡ 32
      → public_of other ≢ public_of server
      → IsForeign N C public_of (agrees client server sized sized').first other
