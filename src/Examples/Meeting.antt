-- ===== src/Examples/Meeting.antt =====
-- The two programs' handshakes over the instance of Ik, during the rotation of the server's key.
use secure_tunnel.Prelude.{
  ◌≡◌, ◌≢◌, ◌++◌, refl, [], ◌∷◌, none, true, false, bytes_eq, if◌then◌else◌, Text, codes, trim,
  Bytes, ok, arith,
}
use secure_tunnel.Protocol.Preface.{preface_bytes}
use secure_tunnel.Protocol.Agreement.Handshaking.{framed}
use secure_tunnel.Tunnel.Io.{ended}
use secure_tunnel.Tunnel.Keys.{
  Host, regular_file, read_server_private_keys, decode_clients, read_key_files, read_private_key,
  decode_public_key, enforce_sensitive_permissions,
}
use secure_tunnel.Protocol.Builder.{to_array32}
use secure_tunnel.Tunnel.Ingress
use secure_tunnel.Tunnel.Egress
use secure_tunnel.Tunnel.Meeting.{smooth, patient, outer, remote, handshake_completes}
use secure_tunnel.Protocol.Session.{Cell, Heap, split, new_session}
use secure_tunnel.Tunnel.Telemetry.{ConnectionTelemetry, fetch_add}
use secure_tunnel.Tunnel.Metrics.{new_telemetry}
use secure_tunnel.Tunnel.Copy.{add_client_to_server, add_server_to_client}
use secure_tunnel.Tunnel.Copy.Delivery.{count_all, task, shut_task, drain}
use secure_tunnel.Tunnel.Copy.Directions.{
  client_uplink, server_inbound, client_downlink, server_outbound,
}
use secure_tunnel.Tunnel.Whole.{Enrolled}
use secure_tunnel.Tunnel.Whole.Uplink.{application_reaches_destination}
use secure_tunnel.Tunnel.Whole.Downlink.{destination_reaches_application}
use secure_tunnel.Examples.Ik.{ik, ik_channel, ik_agreed, ik_agreement}
use secure_tunnel.Examples.Handshake.{key}
use secure_tunnel.Examples.Settings.{client_config, server_config}

-- The file `keys/a` holds the new identity and `keys/b` the old one.
abbrev pub rotating : Host
rotating = record {
  symlink_metadata = λ path. ok (record { file_type = regular_file; mode = 0o100600 });
  read_to_string = λ path. ok path;
  decode_base64 = λ text.
      if bytes_eq text (codes "keys/a")
      then ok (key 2)
      else if bytes_eq text (codes "keys/b")
      then ok (key 1)
      else ok (key 5);
}

pub keys_read : read_server_private_keys rotating server_config.identity ≡ ok (key 2 ∷ key 1 ∷ [])
unfolding read_server_private_keys read_key_files read_private_key enforce_sensitive_permissions
    to_array32 trim
keys_read = refl

pub clients_read : decode_clients rotating server_config.authorized_clients ≡ ok (key 5 ∷ [])
unfolding decode_clients decode_public_key to_array32 trim
clients_read = refl

pub newer : key 2 ≢ key 1
newer = λ e. cc

abbrev pub elapsed : Text
elapsed = codes "deadline has elapsed"

handshake_completes_example :
    let h = ik_agreement.agrees (key 5) (key 1) refl refl in
    (Egress.complete_noise_handshake ik
        (key 5)
        (key 1)
        (patient elapsed)
        (remote (framed h.reply ++ (7 ∷ [])) [] (ended elapsed) false)
      ≡ (
        ok h.client_transport,
        remote (7 ∷ []) (preface_bytes ++ framed h.first) (ended elapsed) false,
      ))
    × (Ingress.run_noise ik rotating server_config
          (smooth elapsed)
          (outer (preface_bytes ++ (framed h.first ++ (8 ∷ []))) [] (ended elapsed) false false)
        ≡ (ok h.server_transport, outer (8 ∷ []) (framed h.reply) (ended elapsed) true true))
    × ik_channel.Linked 9 h.client_transport h.server_transport
    × ik_channel.Linked 9 h.server_transport h.client_transport
unfolding ik_agreement ik_agreed
handshake_completes_example =
    handshake_completes ik rotating ik_channel ik_agreement (key 5) (key 1) refl refl server_config
      (key 2 ∷ []) [] (key 5 ∷ []) keys_read clients_read (omega arith) refl ((refl, newer), tt) 9
      (omega arith) elapsed elapsed (7 ∷ []) (8 ∷ []) (ended elapsed) (ended elapsed)

-- The client's side: its key file holds the key 5, and it pins the old identity.
abbrev pub laptop : Host
laptop = record rotating {
  decode_base64 = λ text. if bytes_eq text (codes "keys/client") then ok (key 5) else ok (key 1);
}

pub own_key_read : read_private_key laptop client_config.private_key_file ≡ ok (key 5)
unfolding read_private_key enforce_sensitive_permissions to_array32 trim
own_key_read = refl

pub pinned_read : decode_public_key laptop client_config.server_public_key ≡ ok (key 1)
unfolding decode_public_key to_array32 trim
pinned_read = refl

enrolled :
    Enrolled laptop rotating ik_agreement.public_of (key 5) (key 1) client_config server_config
unfolding ik_agreement ik_agreed
enrolled = record {
  before = key 2 ∷ [];
  after = [];
  clients = key 5 ∷ [];
  own_key = own_key_read;
  pinned = pinned_read;
  identities = keys_read;
  allow_list = clients_read;
  few = omega arith;
  listed = refl;
  others = ((refl, newer), tt);
}

abbrev opened : ConnectionTelemetry
opened = new_telemetry 1 7

abbrev pub idle_cell : Cell ik
idle_cell = record { poisoned = false; slot = none }

application_reaches_destination_example :
    let h = ik_agreement.agrees (key 5) (key 1) refl refl in
    let (session, cells) = new_session ik h.client_transport 0 (λ a. idle_cell) in
    let (session', cells') = new_session ik h.server_transport 3 (λ a. idle_cell) in
    let hello = preface_bytes ++ framed h.first in
    (wire : Bytes) × (final : Heap ik) × (final' : Heap ik) × (Egress.run_noise ik laptop
        client_config
        (patient elapsed)
        (remote (framed h.reply ++ []) [] (ended elapsed) false)
      ≡ (ok h.client_transport, remote [] hello (ended elapsed) true))
    × (client_uplink ik
          (split session).0
          ((1 ∷ 2 ∷ []) ∷ (3 ∷ []) ∷ [])
          (ended elapsed)
          (task ik ik_channel cells opened false hello)
        ≡ (
          ok tt,
          shut_task ik ik_channel (
              task ik ik_channel final
                (count_all add_client_to_server ((1 ∷ 2 ∷ []) ∷ (3 ∷ []) ∷ []) opened)
                true
                (hello ++ wire)),
        ))
    × (Ingress.run_noise ik rotating server_config
          (smooth elapsed)
          (outer (hello ++ wire) [] (ended elapsed) false false)
        ≡ (ok h.server_transport, outer wire (framed h.reply) (ended elapsed) true true))
    × (server_inbound ik
          (split session').1
          (drain ik ik_channel wire elapsed (task ik ik_channel cells' opened false []))
        ≡ (
          ok tt,
          drain ik ik_channel [] elapsed (
              shut_task ik ik_channel (
                task ik ik_channel final'
                  (count_all add_client_to_server ((1 ∷ 2 ∷ []) ∷ (3 ∷ []) ∷ []) opened)
                  true
                  (1 ∷ 2 ∷ 3 ∷ []))),
        ))
    × ((count_all add_client_to_server ((1 ∷ 2 ∷ []) ∷ (3 ∷ []) ∷ []) opened).bytes_client_to_server
        ≡ fetch_add 0 3)
    × ((count_all add_client_to_server ((1 ∷ 2 ∷ []) ∷ (3 ∷ []) ∷ []) opened).bytes_client_to_server
        ≡ fetch_add 0 3)
application_reaches_destination_example =
    application_reaches_destination ik laptop rotating ik_channel ik_agreement (key 5) (key 1) refl
      refl client_config server_config enrolled ((1 ∷ 2 ∷ []) ∷ (3 ∷ []) ∷ []) (omega arith)
      ((omega arith, omega arith), ((omega arith, omega arith), tt)) elapsed elapsed elapsed [] 0 3
      (λ a. idle_cell) (λ a. idle_cell) opened opened (omega arith) (omega arith)

destination_reaches_application_example :
    let h = ik_agreement.agrees (key 5) (key 1) refl refl in
    let (session, cells) = new_session ik h.client_transport 0 (λ a. idle_cell) in
    let (session', cells') = new_session ik h.server_transport 3 (λ a. idle_cell) in
    let hello = preface_bytes ++ framed h.first in
    (wire : Bytes) × (final : Heap ik) × (final' : Heap ik) × (Ingress.run_noise ik rotating
        server_config
        (smooth elapsed)
        (outer (hello ++ []) [] (ended elapsed) false false)
      ≡ (ok h.server_transport, outer [] (framed h.reply) (ended elapsed) true true))
    × (server_outbound ik
          (split session').0
          ((4 ∷ []) ∷ [])
          (ended elapsed)
          (task ik ik_channel cells' opened false (framed h.reply))
        ≡ (
          ok tt,
          shut_task ik ik_channel (
              task ik ik_channel final'
                (count_all add_server_to_client ((4 ∷ []) ∷ []) opened)
                true
                (framed h.reply ++ wire)),
        ))
    × (Egress.run_noise ik laptop client_config
          (patient elapsed)
          (remote (framed h.reply ++ wire) [] (ended elapsed) false)
        ≡ (ok h.client_transport, remote wire hello (ended elapsed) true))
    × (client_downlink ik
          (split session).1
          (drain ik ik_channel wire elapsed (task ik ik_channel cells opened false []))
        ≡ (
          ok tt,
          drain ik ik_channel [] elapsed (
              shut_task ik ik_channel (
                task ik ik_channel final
                  (count_all add_server_to_client ((4 ∷ []) ∷ []) opened)
                  true
                  (4 ∷ []))),
        ))
    × ((count_all add_server_to_client ((4 ∷ []) ∷ []) opened).bytes_server_to_client
        ≡ fetch_add 0 1)
    × ((count_all add_server_to_client ((4 ∷ []) ∷ []) opened).bytes_server_to_client
        ≡ fetch_add 0 1)
destination_reaches_application_example =
    destination_reaches_application ik laptop rotating ik_channel ik_agreement (key 5) (key 1) refl
      refl client_config server_config enrolled ((4 ∷ []) ∷ []) (omega arith)
      ((omega arith, omega arith), tt) elapsed elapsed elapsed [] 0 3 (λ a. idle_cell)
      (λ a. idle_cell) opened opened (omega arith) (omega arith)
