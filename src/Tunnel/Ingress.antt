-- ===== src/Tunnel/Ingress.antt =====
-- `run_noise` of crates/secure-tunnel-server/src/main.rs, up to its call of `relay`,
-- and `handle_outer` around it.
pub mod Contact
pub mod Arriving
use secure_tunnel.Prelude.{
  ℕ, List, [], ◌∷◌, Option, none, some, Bool, true, false, Text, codes, Bytes, Result, ok, err,
  map_err,
}
use secure_tunnel.Prelude.Exec.{Exec, pure, lift, modify, fail_if, ◌>>=◌, ◌>>◌}
use secure_tunnel.Protocol.Error.{TunnelError, error_chain}
use secure_tunnel.Protocol.Noise.{Noise}
use secure_tunnel.Protocol.Server.{
  Failure, returned, panicked, ServerHandshake, ServerReply, new_with_static_identities,
  accept_preface, receive_client, message, into_session,
}
use secure_tunnel.Config.Server.{ServerConfig}
use secure_tunnel.Tunnel.Io.{
  Error, anyhow, enable_tcp_keepalive, context, Stop, failed, waiting, exhausted, Input, Output,
  read_exact, write_all, flush,
}
use secure_tunnel.Tunnel.Frames.{read_handshake_frame}
use secure_tunnel.Tunnel.Keys.{Host, decode_clients, read_server_private_keys}

-- Which branch of a `select!` comes first: the operation, its timeout, or the shutdown.
pub data Wait : Type 0 where
  in_time : Wait
  late : Wait
  shut : Wait

-- What the connection meets in the runtime; `elapsed` is the text of its timeout error.
pub record Runtime : Type 0 where
  pub elapsed : Text
  pub preface_wait : Wait
  pub frame_wait : Wait
  pub destination_wait : Wait
  pub connected : Result Text (Unit {0})
  pub nodelay : Result Text (Unit {0})
  pub keepalive : Result Text (Unit {0})

-- The outer stream, the telemetry's flag, and whether a connection to the destination was begun.
pub record Outer : Type 0 where
  pub incoming : Input
  pub outgoing : Output
  pub handshake_succeeded : Bool
  pub contacted : Bool

-- Nothing stops a writer but an error; a reader that waits for input meets the timeout.
abbrev pub error_of : Error → Stop → Error
error_of timed_out (failed e) = e
error_of timed_out waiting = timed_out
error_of timed_out exhausted = timed_out

abbrev pub shutdown_requested : Failure Error
shutdown_requested = returned (anyhow (codes "shutdown requested"))

-- `select! { result = timeout(…, read) => result.context(text)??, … }`
unfoldable pub timed {ℓ} :
    {A : Type ℓ} → Text → Text → Wait → Exec Input Stop A → Exec Outer (Failure Error) A
timed elapsed text shut read o = (err shutdown_requested, o)
timed elapsed text late read o = (err (returned (text ∷ elapsed ∷ [])), o)
timed elapsed text in_time read o =
    let (result, rest) = read o.incoming in
    (
      map_err (λ e. returned (error_of (text ∷ elapsed ∷ []) e)) result,
      record o { incoming = rest },
    )

unfoldable pub sending : Exec Output Stop (Unit {0}) → Exec Outer (Failure Error) (Unit {0})
sending write o =
    let (result, rest) = write o.outgoing in
    (map_err (λ e. returned (error_of [] e)) result, record o { outgoing = rest })

-- The connection attempt is begun whichever branch comes first.
unfoldable pub connect : Runtime → Exec Outer (Failure Error) (Unit {0})
connect r o = (outcome r.destination_wait, record o { contacted = true })
  where
    outcome : Wait → Result (Failure Error) (Unit {0})
    outcome shut = err shutdown_requested
    outcome late = err (returned (codes "destination connect timeout" ∷ r.elapsed ∷ []))
    outcome in_time = map_err (λ text. returned (anyhow text)) r.connected

-- What `handle_outer` finds before the handshake.  With outer TLS on, `tls` says which branch of the
-- `select!` comes first and what the TLS library makes of the connection: an error, or a stream.
pub record Arrival : Type 0 where
  pub shutting_down : Bool
  pub nodelay : Result Text (Unit {0})
  pub keepalive : Result Text (Unit {0})
  pub tls : Option (Wait × Result Text (Input × Output))

pub accept_tls :
    Text → Option (Wait × Result Text (Input × Output)) → Exec Outer (Failure Error) (Unit {0})
accept_tls elapsed none o = (ok tt, o)
accept_tls elapsed (some (shut, result)) o = (err shutdown_requested, o)
accept_tls elapsed (some (late, result)) o =
    (err (returned (codes "outer TLS handshake timed out" ∷ elapsed ∷ [])), o)
accept_tls elapsed (some (in_time, err text)) o = (err (returned (anyhow text)), o)
accept_tls elapsed (some (in_time, ok (i, out))) o =
    (ok tt, record o { incoming = i; outgoing = out })

module _ (N : Noise) (H : Host) where
  open N use {SnowError, TransportState, error_text}

  -- `?` on an error of the protocol library.
  abbrev pub of_tunnel : TunnelError SnowError → Error
  of_tunnel e = error_chain error_text e

  abbrev pub of_failure : Failure (TunnelError SnowError) → Failure Error
  of_failure (returned e) = returned (codes "Noise handshake failed" ∷ of_tunnel e)
  of_failure panicked = panicked

  -- A call on `&mut` of a local value: its result, with the value as it is then.
  abbrev pub with_state {ℓ} :
      {S A : Type ℓ} → Result (TunnelError SnowError) A × S → Result (Failure Error) (A × S)
  with_state (ok a, s) = ok (a, s)
  with_state (err e, s) = err (returned (of_tunnel e))

  -- Until the client's first message has been received.
  unfoldable pub await_client : ServerConfig → Runtime → Exec Outer (Failure Error) (ServerReply N)
  await_client config r = do
    private_keys ← lift (map_err returned (read_server_private_keys H config.identity))
    clients ← lift (map_err returned (decode_clients H config.authorized_clients))
    preface ← timed r.elapsed (codes "preface timeout") r.preface_wait (read_exact 6)
    handshake ←
        lift (
          map_err (λ e. returned (of_tunnel e)) (new_with_static_identities N private_keys clients))
    (u, handshake') ← lift (with_state (accept_preface N preface handshake))
    first ← timed r.elapsed (codes "Noise handshake timeout") r.frame_wait read_handshake_frame
    lift (map_err of_failure (receive_client N first handshake').0)

  -- The reply, and the connection to the destination.
  unfoldable pub answer_client : Runtime → ServerReply N → Exec Outer (Failure Error) TransportState
  unfolding connect
  answer_client r reply = do
    (frame, reply') ← lift (with_state (message N reply))
    sending (write_all frame)
    sending flush
    session ← lift (map_err (λ e. returned (of_tunnel e)) (into_session N reply').0)
    modify (λ o. record o { handshake_succeeded = true })
    connect r
    lift (map_err (λ text. returned (anyhow text)) r.nodelay)
    lift (map_err returned (enable_tcp_keepalive r.keepalive))
    pure session

  unfoldable pub run_noise : ServerConfig → Runtime → Exec Outer (Failure Error) TransportState
  unfolding await_client answer_client
  run_noise config r = do reply ← await_client config r; answer_client r reply

  -- `handle_outer`.
  pub handle_outer : ServerConfig → Arrival → Runtime → Exec Outer (Failure Error) TransportState
  unfolding accept_tls run_noise
  handle_outer config x r = do
    fail_if x.shutting_down shutdown_requested
    lift (map_err (λ text. returned (anyhow text)) x.nodelay)
    lift (map_err returned (enable_tcp_keepalive x.keepalive))
    accept_tls r.elapsed x.tls
    run_noise config r
