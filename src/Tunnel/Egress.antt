-- ===== src/Tunnel/Egress.antt =====
-- The handshake of crates/secure-tunnel-client/src/main.rs: `complete_noise_handshake`, and `run_noise` up
-- to its call of `relay`.
pub mod Greeting
pub mod Departing
use secure_tunnel.Prelude.{[], ◌∷◌, Bool, true, false, Text, codes, Bytes, Result, ok, err, map_err}
use secure_tunnel.Prelude.Exec.{Exec, pure, lift, modify, ◌>>=◌, ◌>>◌}
use secure_tunnel.Protocol.Error.{TunnelError, error_chain}
use secure_tunnel.Protocol.Preface.{v1, encode}
use secure_tunnel.Protocol.Noise.{Noise}
use secure_tunnel.Protocol.Client.{ClientHandshake, new, first_message, finish}
use secure_tunnel.Config.Client.{ClientConfig}
use secure_tunnel.Tunnel.Io.{
  Error, context, Stop, failed, waiting, exhausted, Input, Output, write_all, flush,
}
use secure_tunnel.Tunnel.Frames.{read_handshake_frame}
use secure_tunnel.Tunnel.Keys.{Host, decode_public_key, read_private_key}

-- Whether the reply comes before its timeout, and the text of the runtime's timeout error.
pub record Patience : Type 0 where
  pub in_time : Bool
  pub elapsed : Text

-- The stream to the server, and the telemetry's flag.
pub record Remote : Type 0 where
  pub incoming : Input
  pub outgoing : Output
  pub handshake_succeeded : Bool

-- A reader that waits for input meets the timeout; nothing stops a writer but an error.
abbrev error_of : Error → Stop → Error
error_of timed_out (failed e) = e
error_of timed_out waiting = timed_out
error_of timed_out exhausted = timed_out

abbrev pub sending : Exec Output Stop (Unit {0}) → Exec Remote Error (Unit {0})
sending write o =
    let (result, rest) = write o.outgoing in
    (map_err (error_of []) result, record o { outgoing = rest })

abbrev reply_within : Bool → Error → Exec Input Stop Bytes → Exec Remote Error Bytes
reply_within true timed_out read o =
    let (result, rest) = read o.incoming in
    (map_err (error_of timed_out) result, record o { incoming = rest })
reply_within false timed_out read o = (err timed_out, o)

module _ (N : Noise) where
  open N use {SnowError, TransportState, error_text}

  abbrev pub of_tunnel : TunnelError SnowError → Error
  of_tunnel e = error_chain error_text e

  abbrev pub with_context : {A : Type 0} → Result (TunnelError SnowError) A → Result Error A
  with_context result = context (codes "Noise handshake failed") (map_err of_tunnel result)

  -- A call on `&mut` of a local value, with the context: its result, with the value as it is then.
  abbrev pub with_state :
      {S A : Type 0} → Result (TunnelError SnowError) A × S → Result Error (A × S)
  with_state (ok a, s) = ok (a, s)
  with_state (err e, s) = err (codes "Noise handshake failed" ∷ of_tunnel e)

  unfoldable pub complete_noise_handshake :
      Bytes → Bytes → Patience → Exec Remote Error TransportState
  complete_noise_handshake private server patience = do
    sending (write_all (encode v1))
    handshake ← lift (map_err of_tunnel (new N private server))
    (frame, handshake') ← lift (with_state (first_message N handshake))
    sending (write_all frame)
    sending flush
    reply ←
        reply_within patience.in_time (codes "Noise handshake timed out" ∷ patience.elapsed ∷ [])
          read_handshake_frame
    lift (with_context (finish N reply handshake').0)

  unfoldable pub run_noise : Host → ClientConfig → Patience → Exec Remote Error TransportState
  unfolding complete_noise_handshake
  run_noise H config patience = do
    private ← lift (read_private_key H config.private_key_file)
    server ← lift (decode_public_key H config.server_public_key)
    session ← complete_noise_handshake private server patience
    modify (λ o. record o { handshake_succeeded = true })
    pure session
