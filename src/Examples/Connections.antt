-- ===== src/Examples/Connections.antt =====
-- Connections over the toy cipher, up to what is counted for them.
use secure_tunnel.Prelude.{
  ◌≡◌, refl, ◌⊎◌, [], ◌∷◌, none, some, true, false, codes, ok, err, map_err,
}
use secure_tunnel.Protocol.Error.{unauthorised_client}
use secure_tunnel.Protocol.Frame.{decode_handshake_frame}
use secure_tunnel.Protocol.Builder.{responder, noise_builder, to_array32}
use secure_tunnel.Protocol.Server.{
  returned, ServerHandshake, ServerReply, receive_client, try_identities, attempt, remote_key,
}
use secure_tunnel.Tunnel.Io.{Error, Input, Output, silent}
use secure_tunnel.Tunnel.Telemetry.{fetch_add}
use secure_tunnel.Tunnel.Metrics.{default, new_telemetry, server_finish_connection}
use secure_tunnel.Tunnel.Ingress.{in_time, of_failure}
use secure_tunnel.Tunnel.Ingress.Contact.{IsAdmitted}
use secure_tunnel.Tunnel.Ingress.Arriving.{stream_of}
use secure_tunnel.Tunnel.Egress.{Patience}
use secure_tunnel.Tunnel.Egress.Departing.{Departure, handle_local}
use secure_tunnel.Tunnel.Relay.Tasks.{reads, turns, activity_recv}
use secure_tunnel.Tunnel.Connection.{
  Surroundings, unconnected, client_connection, client_counts, server_connection, server_counts,
}
use secure_tunnel.Tunnel.Connection.Counting.{Counted, client_connection-Counted}
use secure_tunnel.Tunnel.Connection.Admitted.{server_connection-IsAdmitted}
use secure_tunnel.Tunnel.Connection.Refused.{receive_client_unlisted}
use secure_tunnel.Examples.Toy.{toy}
use secure_tunnel.Examples.Handshake.{key, hello}
use secure_tunnel.Examples.Settings.{
  client_config, server_config, host, runtime, connection, arrival,
}

abbrev unwritten : Output
unwritten = record { written = []; shut = false; faults = [] }

abbrev quiet : Input
quiet = record { bytes = []; ending = silent }

abbrev surroundings : Surroundings toy
surroundings = record {
  address = 4;
  heap = λ a. record { poisoned = false; slot = none };
  telemetry = new_telemetry 1 7;
  sink = unwritten;
  now = 7;
}

abbrev departure : Departure
departure = record {
  shutting_down = false;
  local_nodelay = ok tt;
  local_keepalive = ok tt;
  connecting = (in_time, ok (record { bytes = hello; ending = silent }, unwritten));
  remote_nodelay = ok tt;
  remote_keepalive = ok tt;
  tls = (in_time, ok (quiet, unwritten));
}

abbrev patience : Patience
patience = record { in_time = true; elapsed = codes "deadline has elapsed" }

client_connection-Counted_example :
    let k =
      client_connection toy host
        (λ name. true)
        client_config
        departure
        patience
        surroundings
        quiet
        unwritten
        (reads (ok (1 ∷ [])) ∷ turns 9 activity_recv ∷ reads (ok []) ∷ []) in
    Counted toy default
      (client_counts toy default 12 k)
      k
      (handle_local toy
        (λ name. true)
        host
        client_config
        departure
        patience
        (unconnected toy quiet unwritten (new_telemetry 1 7))).0
client_connection-Counted_example =
    client_connection-Counted toy host (λ name. true) client_config departure patience surroundings
      quiet unwritten (reads (ok (1 ∷ [])) ∷ turns 9 activity_recv ∷ reads (ok []) ∷ []) default 12
      refl

server_connection-IsAdmitted_example :
    let k =
      server_connection toy host server_config arrival runtime surroundings connection.incoming
        unwritten
        (reads (ok (1 ∷ [])) ∷ turns 9 activity_recv ∷ reads (ok []) ∷ []) in
    ((server_counts toy default 12 k).handshake_success_total ≡ default.handshake_success_total)
    ⊎ ((reply : ServerReply toy) × IsAdmitted toy host server_config
          (stream_of arrival.tls connection.incoming)
          reply)
server_connection-IsAdmitted_example =
    server_connection-IsAdmitted toy host server_config arrival runtime surroundings
      connection.incoming unwritten
      (reads (ok (1 ∷ [])) ∷ turns 9 activity_recv ∷ reads (ok []) ∷ []) default 12 refl

-- The client authenticates as key 5, and only key 9 is listed.
abbrev exclusive : ServerHandshake toy
exclusive = record {
  static_identities = some (key 1 ∷ key 2 ∷ []);
  allow_list = key 9 ∷ [];
  preface_accepted = true;
}

hello-refused : (receive_client toy hello exclusive).0 ≡ err (returned unauthorised_client)
unfolding receive_client try_identities attempt remote_key responder noise_builder to_array32
    decode_handshake_frame
hello-refused = refl

receive_client_unlisted_example :
    (e : Error) × (map_err (of_failure toy host) (receive_client toy hello exclusive).0
      ≡ err (returned e))
    × (let m' = (server_finish_connection default (new_telemetry 1 7) (err e) 12).0 in
        (m'.unauthorized_client_total ≡ default.unauthorized_client_total)
        × (m'.handshake_failure_total ≡ fetch_add default.handshake_failure_total 1))
receive_client_unlisted_example =
    receive_client_unlisted toy host hello exclusive default (new_telemetry 1 7) 12 hello-refused
      refl
