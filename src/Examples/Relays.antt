-- ===== src/Examples/Relays.antt =====
-- Two relays over the instance of Ik: the client reads twice and the server once, the records cross,
-- and the server's destination ends its stream.
use secure_tunnel.Prelude.{◌≡◌, refl, ◌++◌, List, [], ◌∷◌, false, true, codes, ok, arith}
use secure_tunnel.Protocol.Preface.{preface_bytes}
use secure_tunnel.Protocol.Session.{
  split, new_session, at_cell, seal_record, open_record, sender_encrypt_record,
  receiver_decrypt_record,
}
use secure_tunnel.Protocol.Session.Duplex.Carrying.{channel_of}
use secure_tunnel.Protocol.Agreement.{Agreement}
use secure_tunnel.Protocol.Agreement.Handshaking.{framed}
use secure_tunnel.Tunnel.Io.{silent, read_exact, read_byte, write_all, flush, shutdown}
use secure_tunnel.Tunnel.Metrics.{new_telemetry}
use secure_tunnel.Protocol.Frame.{decode_record_frame}
use secure_tunnel.Tunnel.Frames.{read_record_frame}
use secure_tunnel.Tunnel.Egress
use secure_tunnel.Tunnel.Ingress
use secure_tunnel.Tunnel.Copy.{send_chunk, deliver_record}
use secure_tunnel.Tunnel.Relay.{RelayEnd, returned, react}
use secure_tunnel.Tunnel.Relay.Tasks.{
  reads, opens, turns, opening_join, activity_recv, over, finished, move, seal_move, open_move,
  turn, ready, seal_round, open_round,
}
use secure_tunnel.Tunnel.Pair.{
  Step, at_client, at_server, carries_up, carries_down, ends_up, ends_down, Pair, step, steps,
}
use secure_tunnel.Tunnel.Pair.Runs.{IsPrefix, Begun, begin}
use secure_tunnel.Tunnel.Pair.Delivered.{steps-IsPrefix, client_relay_complete, inbound_complete}
use secure_tunnel.Tunnel.Meeting.{smooth, patient, outer, remote}
use secure_tunnel.Tunnel.Whole.{Enrolled}
use secure_tunnel.Tunnel.Whole.Both.{Setting, begun, connection_in_order}
use secure_tunnel.Examples.Ik.{ik, ik_agreed, ik-IsForeign}
use secure_tunnel.Examples.Duplex.{ik_cipher, session, held}
use secure_tunnel.Examples.Handshake.{key}
use secure_tunnel.Examples.Settings.{client_config, server_config}
use secure_tunnel.Examples.Meeting.{
  rotating, laptop, own_key_read, pinned_read, keys_read, clients_read, newer, elapsed, idle_cell,
}

abbrev side : Begun ik
side = record {
  heap = held;
  telemetry = new_telemetry 1 7;
  greeting = [];
  wire_faults = [];
  sink_faults = [];
  idle = 60000;
  now = 7;
}

-- The server's answer arrives in two pieces, the second of which comes late.
abbrev run : List Step
run =
    at_client (reads (ok (1 ∷ 2 ∷ [])))
    ∷ at_server (reads (ok (9 ∷ [])))
    ∷ carries_up 5
    ∷ at_server opens
    ∷ carries_down 3
    ∷ at_client opens
    ∷ at_client (turns 9 activity_recv)
    ∷ at_client (reads (ok (3 ∷ [])))
    ∷ at_server (reads (ok []))
    ∷ carries_down 100
    ∷ ends_down (codes "eof")
    ∷ carries_up 100
    ∷ at_client opens
    ∷ at_server opens
    ∷ at_client opens
    ∷ at_client (turns 12 opening_join)
    ∷ []

steps-IsPrefix_example :
    let p = steps ik session session 60000 60000 run (begin ik ik_cipher side side) in
    IsPrefix p.server.sink.written p.client.source × IsPrefix p.client.sink.written p.server.source
unfolding ik_cipher
steps-IsPrefix_example =
    steps-IsPrefix ik ik_cipher session session side side run (0, 0) (0, 0) (tt, refl) (tt, refl)
      refl refl (omega arith)

abbrev reached : Pair ik
reached = steps ik session session 60000 60000 run (begin ik ik_cipher side side)

abbrev good_end : RelayEnd
good_end = record { result = ok tt; aborted = true }

run_ends :
    (reached.client.watch ≡ over good_end) × (reached.server.sealing ≡ finished (returned (ok tt)))
unfolding ik_cipher steps step move seal_move open_move turn ready seal_round open_round send_chunk
    deliver_record read_record_frame sender_encrypt_record receiver_decrypt_record at_cell
    seal_record open_record split react decode_record_frame read_exact read_byte write_all flush
    shutdown
run_ends = (refl, refl)

client_relay_complete_example : reached.client.sink.written ≡ reached.server.source
unfolding ik_cipher
client_relay_complete_example =
    client_relay_complete ik ik_cipher session session side side run (0, 0) (0, 0) good_end
      (tt, refl) (tt, refl) refl refl (omega arith) run_ends.0 refl run_ends.1

-- The application ends its stream, while the server's answer is still on its way.
abbrev upload : List Step
upload =
    at_client (reads (ok (1 ∷ 2 ∷ [])))
    ∷ at_server (reads (ok (9 ∷ [])))
    ∷ carries_up 100
    ∷ at_server opens
    ∷ at_client (reads (ok (3 ∷ [])))
    ∷ at_client (reads (ok []))
    ∷ carries_up 100
    ∷ ends_up (codes "eof")
    ∷ at_server opens
    ∷ at_server opens
    ∷ []

abbrev uploaded : Pair ik
uploaded = steps ik session session 60000 60000 upload (begin ik ik_cipher side side)

upload_ends :
    (uploaded.client.sealing ≡ finished (returned (ok tt)))
    × (uploaded.server.opening ≡ finished (returned (ok tt)))
unfolding ik_cipher steps step move seal_move open_move turn ready seal_round open_round send_chunk
    deliver_record read_record_frame sender_encrypt_record receiver_decrypt_record at_cell
    seal_record open_record split react decode_record_frame read_exact read_byte write_all flush
    shutdown
upload_ends = (refl, refl)

inbound_complete_example : uploaded.server.sink.written ≡ uploaded.client.source
unfolding ik_cipher
inbound_complete_example =
    inbound_complete ik ik_cipher session session side side upload (0, 0) (0, 0) (tt, refl)
      (tt, refl) refl refl (omega arith) upload_ends.0 upload_ends.1

unfoldable both_agreement : Agreement ik (channel_of ik ik_cipher)
unfolding ik_agreed ik_cipher
both_agreement = record {
  public_of = λ key. key;
  public_size = λ key sized. sized;
  agrees = ik_agreed (channel_of ik ik_cipher);
  forward = λ client server sized sized' n small. (0, (tt, refl), (tt, refl));
  backward = λ client server sized sized' n small. (0, (tt, refl), (tt, refl));
  foreign = λ client server other sized sized' long different.
      ik-IsForeign (channel_of ik ik_cipher) client server other sized different;
}

enrolled :
    Enrolled laptop rotating both_agreement.public_of (key 5) (key 1) client_config server_config
unfolding both_agreement
enrolled = record {
  before = key 2 ∷ [];
  after = [];
  clients = key 5 ∷ [];
  own_key = own_key_read;
  pinned = pinned_read;
  identities = keys_read;
  allow_list = clients_read;
  few = omega arith;
  listed = refl;
  others = ((refl, newer), tt);
}

abbrev setting : Setting ik
setting = record {
  address = 4;
  heap = λ a. idle_cell;
  telemetry = new_telemetry 1 7;
  wire_faults = [];
  sink_faults = [];
  idle = 60000;
  now = 7;
}

connection_in_order_example :
    let h = both_agreement.agrees (key 5) (key 1) refl refl in
    let hello = preface_bytes ++ framed h.first in
    let session' = (new_session ik h.client_transport 4 setting.heap).0 in
    let session'' = (new_session ik h.server_transport 4 setting.heap).0 in
    let p = steps ik session' session'' 60000 60000 run (
      begin ik ik_cipher
        (begun ik setting h.client_transport hello)
        (begun ik setting h.server_transport (framed h.reply))) in
    (Egress.run_noise ik laptop client_config
        (patient elapsed)
        (remote (framed h.reply) [] silent false)
      ≡ (ok h.client_transport, remote [] hello silent true))
    × (Ingress.run_noise ik rotating server_config
          (smooth elapsed)
          (outer hello [] silent false false)
        ≡ (ok h.server_transport, outer [] (framed h.reply) silent true true))
    × IsPrefix p.server.sink.written p.client.source
    × IsPrefix p.client.sink.written p.server.source
unfolding both_agreement
connection_in_order_example =
    connection_in_order ik laptop rotating ik_cipher both_agreement (key 5) (key 1) refl refl
      client_config server_config enrolled elapsed elapsed setting setting run (omega arith)
      (omega arith) (omega arith)
