-- ===== src/Tunnel/Copy/Directions.antt =====
-- The four copying tasks: `uplink` and `downlink` of `relay` in crates/secure-tunnel-client/src/main.rs,
-- `inbound` and `outbound` of `relay` in crates/secure-tunnel-server/src/main.rs.
use secure_tunnel.Prelude.{
  ℕ, ◌+◌, ◌<◌, ◌≡◌, sym, ap, ◌∙◌, List, [], ◌∷◌, length, length-append, concat, Bytes, arith,
}
use secure_tunnel.Prelude.Exec.{Exec}
use secure_tunnel.Protocol.Noise.{Noise}
use secure_tunnel.Protocol.Session.{TransportSender, TransportReceiver}
use secure_tunnel.Tunnel.Io.{Stop, Ending}
use secure_tunnel.Tunnel.Telemetry.{ConnectionTelemetry, u64_mod, fetch_add}
use secure_tunnel.Tunnel.Copy.{
  Task, Drain, copy_encrypt, copy_decrypt, add_client_to_server, add_server_to_client,
}
use secure_tunnel.Tunnel.Copy.Delivery.{count_all}

module _ (N : Noise) where
  unfoldable pub client_uplink :
      TransportSender → List Bytes → Ending → Exec (Task N) Stop (Unit {0})
  client_uplink = copy_encrypt N add_client_to_server

  unfoldable pub client_downlink : TransportReceiver → Exec (Drain N) Stop (Unit {0})
  client_downlink = copy_decrypt N add_server_to_client

  unfoldable pub server_inbound : TransportReceiver → Exec (Drain N) Stop (Unit {0})
  server_inbound = copy_decrypt N add_client_to_server

  unfoldable pub server_outbound :
      TransportSender → List Bytes → Ending → Exec (Task N) Stop (Unit {0})
  server_outbound = copy_encrypt N add_server_to_client

add_nothing : (n : ℕ) → n < u64_mod → n ≡ fetch_add n 0
unfolding fetch_add
add_nothing n small = omega arith

add_twice : (n a b : ℕ) → fetch_add (fetch_add n a) b ≡ fetch_add n (a + b)
unfolding fetch_add
add_twice n a b = omega arith

fetch_add-small : (n a : ℕ) → fetch_add n a < u64_mod
unfolding fetch_add
fetch_add-small n a = omega arith

-- However a stream was cut into pieces, its counter grows by its length, modulo 2^64.
pub count_all-client_to_server :
    (reads : List Bytes) (t : ConnectionTelemetry)
    → t.bytes_client_to_server < u64_mod
    → (count_all add_client_to_server reads t).bytes_client_to_server
      ≡ fetch_add t.bytes_client_to_server (length (concat reads))
unfolding count_all add_client_to_server
count_all-client_to_server [] t small = add_nothing t.bytes_client_to_server small
count_all-client_to_server (chunk ∷ reads) t small =
    count_all-client_to_server reads (add_client_to_server (length chunk) t) (fetch_add-small _ _)
    ∙ add_twice _ (length chunk) (length (concat reads))
    ∙ ap (fetch_add t.bytes_client_to_server) (sym (length-append chunk (concat reads)))

-- However a stream was cut into pieces, its counter grows by its length, modulo 2^64.
pub count_all-server_to_client :
    (reads : List Bytes) (t : ConnectionTelemetry)
    → t.bytes_server_to_client < u64_mod
    → (count_all add_server_to_client reads t).bytes_server_to_client
      ≡ fetch_add t.bytes_server_to_client (length (concat reads))
unfolding count_all add_server_to_client
count_all-server_to_client [] t small = add_nothing t.bytes_server_to_client small
count_all-server_to_client (chunk ∷ reads) t small =
    count_all-server_to_client reads (add_server_to_client (length chunk) t) (fetch_add-small _ _)
    ∙ add_twice _ (length chunk) (length (concat reads))
    ∙ ap (fetch_add t.bytes_server_to_client) (sym (length-append chunk (concat reads)))
