-- ===== src/Tunnel/Close.antt =====
-- `CloseReason` and `error_stage` of crates/secure-tunnel-client/src/main.rs; `CloseReason` is the
-- same in crates/secure-tunnel-server/src/main.rs.
mod Classes
use secure_tunnel.Prelude.{
  Bool, ◌||◌, if◌then◌else◌, Text, codes, contains, to_ascii_lowercase, Result, ok, err,
}
use secure_tunnel.Tunnel.Io.{Error, render}

pub data CloseReason : Type 0 where
  peer_closed : CloseReason
  shutdown : CloseReason
  idle_timeout : CloseReason
  outer_tls_failed : CloseReason
  noise_handshake_failed : CloseReason
  decrypt_failed : CloseReason
  destination_connect_failed : CloseReason
  unauthorized_client : CloseReason
  transport_error : CloseReason

abbrev pub message_of : Error → Text
message_of error = to_ascii_lowercase (render error)

-- The tests on the rendered error, in the order of the code.
unfoldable pub from_message : Text → CloseReason
from_message message =
    if contains (codes "shutdown requested") message
    then shutdown
    else if contains (codes "idle timeout") message
    then idle_timeout
    else if contains (codes "outer tls") message || contains (codes "certificate") message
    then outer_tls_failed
    else if contains (codes "decrypt") message
    then decrypt_failed
    else if contains (codes "destination connect") message
    then destination_connect_failed
    else if contains (codes "unauthorised client") message
        || contains (codes "unauthorized client") message
    then unauthorized_client
    else if contains (codes "noise handshake") message
        || contains (codes "preface") message
        || contains (codes "handshake") message
    then noise_handshake_failed
    else transport_error

unfoldable pub from_error : Error → CloseReason
unfolding from_message
from_error error = from_message (message_of error)

pub as_str : CloseReason → Text
as_str peer_closed = codes "peer_closed"
as_str shutdown = codes "shutdown"
as_str idle_timeout = codes "idle_timeout"
as_str outer_tls_failed = codes "outer_tls_failed"
as_str noise_handshake_failed = codes "noise_handshake_failed"
as_str decrypt_failed = codes "decrypt_failed"
as_str destination_connect_failed = codes "destination_connect_failed"
as_str unauthorized_client = codes "unauthorized_client"
as_str transport_error = codes "transport_error"

pub error_stage : Error → Text
error_stage error =
    let message = message_of error in
    if contains (codes "local tcp nodelay") message
    then codes "local_nodelay"
    else if contains (codes "local tcp keepalive") message
    then codes "local_keepalive"
    else if contains (codes "remote connect") message
    then codes "remote_connect"
    else if contains (codes "remote tcp nodelay") message
    then codes "remote_nodelay"
    else if contains (codes "remote tcp keepalive") message
    then codes "remote_keepalive"
    else if contains (codes "noise handshake") message || contains (codes "preface") message
    then codes "noise_handshake"
    else codes "other"

-- `result.as_ref().err().map_or(CloseReason::PeerClosed, CloseReason::from_error)`
unfoldable pub reason_of {ℓ} : {A : Type ℓ} → Result Error A → CloseReason
unfolding from_error
reason_of (ok a) = peer_closed
reason_of (err e) = from_error e

-- `result.as_ref().err().map_or("complete", error_stage)`
pub stage_of {ℓ} : {A : Type ℓ} → Result Error A → Text
unfolding error_stage
stage_of (ok a) = codes "complete"
stage_of (err e) = error_stage e
