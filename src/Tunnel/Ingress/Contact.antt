-- ===== src/Tunnel/Ingress/Contact.antt =====
-- Whom the ingress writes to, and for whom it contacts the destination.
use secure_tunnel.Prelude.{
  ◌≡◌, refl, sym, ap, ◌∙◌, ◌⊎◌, inl, inr, List, some, Text, codes, map_err, Bytes, Result, ok, err,
  Result-cases,
}
use secure_tunnel.Prelude.Exec.{Exec, lift, ◌>>=◌}
use secure_tunnel.Protocol.Preface.{preface_bytes}
use secure_tunnel.Protocol.Frame.{decode_handshake_frame}
use secure_tunnel.Protocol.Noise.{Noise}
use secure_tunnel.Protocol.Server.{
  Failure, ServerHandshake, ServerReply, new_with_static_identities, accept_preface, receive_client,
}
use secure_tunnel.Protocol.Server.Admission.{Chosen, Passes, Replies, receive_client-Chosen}
use secure_tunnel.Protocol.Server.Entry.{new-ok, accept_preface-ok}
use secure_tunnel.Config.Server.{ServerConfig}
use secure_tunnel.Tunnel.Io.{Error, Stop, Input, read_exact}
use secure_tunnel.Tunnel.Frames.{read_handshake_frame}
use secure_tunnel.Tunnel.Keys.{Host, read_server_private_keys, decode_clients}
use secure_tunnel.Tunnel.Ingress.{
  Wait, in_time, late, shut, Runtime, Outer, timed, of_failure, await_client, run_noise,
}

same_keys : {keys keys' : List Bytes} → some keys ≡ some keys' → keys ≡ keys'
same_keys e = cc

module _ (N : Noise) (H : Host) where
  open N use {SnowError}

  -- The stream starts with the version 1 preface and a handshake frame whose message authenticates,
  -- under one of the server's identities, a client of the configuration.
  pub record IsAdmitted (config : ServerConfig) (i : Input) (reply : ServerReply N) : Type 0 where
    pub identities : List Bytes
    pub clients : List Bytes
    pub frame : Bytes
    pub message : Bytes
    pub identities_read : read_server_private_keys H config.identity ≡ ok identities
    pub clients_decoded : decode_clients H config.authorized_clients ≡ ok clients
    pub preface_read : (read_exact 6 i).0 ≡ ok preface_bytes
    pub frame_read : (read_handshake_frame (read_exact 6 i).1).0 ≡ ok frame
    pub frame_decoded : decode_handshake_frame {S = SnowError} frame ≡ ok message
    pub chosen : Chosen (Passes N clients message) (Replies N clients message reply) identities

  -- A call that leaves all but the input of the connection alone, and fails.
  abbrev FailsQuietly : {A : Type 0} → Outer → Result (Failure Error) A × Outer → Type 0
  FailsQuietly o end =
      (e : Failure Error) × (i : Input) × (end ≡ (err e, record o { incoming = i }))

  timed-cases :
      {A : Type 0} (elapsed text : Text) (w : Wait) (read : Exec Input Stop A) (o : Outer)
      → ((a : A) × ((read o.incoming).0 ≡ ok a)
          × (timed elapsed text w read o ≡ (ok a, record o { incoming = (read o.incoming).1 })))
        ⊎ FailsQuietly o (timed elapsed text w read o)
  unfolding timed
  timed-cases elapsed text shut read o = inr (_, _, refl)
  timed-cases elapsed text late read o = inr (_, _, refl)
  timed-cases elapsed text in_time read o = elim (Result-cases (read o.incoming).0) [
    | inl (a, h) ↦ rw h (inl (a, refl, refl))
    | inr (e, h) ↦ rw h (inr (_, _, refl))
  ]

  abbrev Outcome : ServerConfig → Outer → Result (Failure Error) (ServerReply N) × Outer → Type 0
  Outcome config o end =
      ((reply : ServerReply N) × (i : Input) × IsAdmitted config o.incoming reply
        × (end ≡ (ok reply, record o { incoming = i })))
      ⊎ FailsQuietly o end

  -- The handshake after the preface still has the keys and the allow-list it was made with.
  rechosen :
      (message : Bytes) {keys keys' clients clients' : List Bytes} {reply : ServerReply N}
      → keys' ≡ keys
      → clients' ≡ clients
      → Chosen (Passes N clients' message) (Replies N clients' message reply) keys'
      → Chosen (Passes N clients message) (Replies N clients message reply) keys
  rechosen message {reply = reply} e f chosen = rw (sym e, sym f) chosen

  -- From the accepted preface on.
  greeted :
      (config : ServerConfig) (r : Runtime) (o : Outer) (keys clients : List Bytes)
      (preface : Bytes) (h : ServerHandshake N) (u : Unit {0})
      → read_server_private_keys H config.identity ≡ ok keys
      → decode_clients H config.authorized_clients ≡ ok clients
      → (read_exact 6 o.incoming).0 ≡ ok preface
      → new_with_static_identities N keys clients ≡ ok h
      → (accept_preface N preface h).0 ≡ ok u
      → Outcome config o (
          (timed r.elapsed (codes "Noise handshake timeout") r.frame_wait read_handshake_frame
              >>= λ first. lift (
                  map_err
                    (of_failure N H)
                    (receive_client N first (accept_preface N preface h).1).0))
            (record o { incoming = (read_exact 6 o.incoming).1 }))
  greeted config r o keys clients preface h u a b read d f =
      let o' : Outer = record o { incoming = (read_exact 6 o.incoming).1 } in
      let h' = (accept_preface N preface h).1 in
      let (is_v1, accepted) = accept_preface-ok N preface h u f in
      let (unused, listed) = new-ok N keys clients h d in
      elim (timed-cases r.elapsed (codes "Noise handshake timeout") r.frame_wait
        read_handshake_frame o') [
          | inr (e, i, g) ↦ rw g (inr (_, _, refl))
          | inl (first, got, g) ↦ rw g (elim (Result-cases (receive_client N first h').0) [
            | inr (e, x) ↦ rw x (inr (_, _, refl))
            | inl (reply, x) ↦ rw x (
                inl (
                  reply,
                  _,
                  (let (z, message, decoded, keys', same, chosen) =
                        receive_client-Chosen N h' first x in
                      record {
                        identities = keys;
                        clients = clients;
                        frame = first;
                        message = message;
                        identities_read = a;
                        clients_decoded = b;
                        preface_read = rw (sym is_v1) read;
                        frame_read = got;
                        frame_decoded = decoded;
                        chosen =
                            rechosen message
                              (same_keys
                                (sym same ∙ ap (λ s. s.static_identities) accepted ∙ unused))
                              (ap (λ s. s.allow_list) accepted ∙ listed) chosen;
                      }),
                  refl,
                ))
          ])
        ]

  await_client-Outcome :
      (config : ServerConfig) (r : Runtime) (o : Outer)
      → Outcome config o (await_client N H config r o)
  unfolding await_client
  await_client-Outcome config r o =
      elim (Result-cases (read_server_private_keys H config.identity)) [
        | inr (e, a) ↦ rw (a, await_client) (inr (_, _, refl))
        | inl (keys, a) ↦ elim (Result-cases (decode_clients H config.authorized_clients)) [
          | inr (e, b) ↦ rw (a, b, await_client) (inr (_, _, refl))
          | inl (clients, b) ↦
              elim (timed-cases r.elapsed (codes "preface timeout") r.preface_wait (read_exact 6)
                o) [
                  | inr (e, i, c) ↦ rw (a, b, c, await_client) (inr (_, _, refl))
                  | inl (preface, read, c) ↦
                      elim (Result-cases (new_with_static_identities N keys clients)) [
                        | inr (e, d) ↦ rw (a, b, c, d, await_client) (inr (_, _, refl))
                        | inl (h, d) ↦ elim (Result-cases (accept_preface N preface h).0) [
                          | inr (e, f) ↦ rw (a, b, c, d, f, await_client) (inr (_, _, refl))
                          | inl (u, f) ↦
                              rw (a, b, c, d, f, await_client)
                                (greeted config r o keys clients preface h u a b read d f)
                        ]
                      ]
                ]
        ]
      ]

  -- Whatever the outer connection sends and whatever the runtime does: either nothing is written to
  -- the connection, the handshake does not count as succeeded and the destination is not contacted,
  -- or the connection began with the version 1 preface and a handshake frame in which one of the
  -- server's identities authenticated a client of the configuration.
  pub run_noise-IsAdmitted :
      (config : ServerConfig) (r : Runtime) (o : Outer)
      → (((run_noise N H config r o).1.outgoing ≡ o.outgoing)
          × ((run_noise N H config r o).1.handshake_succeeded ≡ o.handshake_succeeded)
          × ((run_noise N H config r o).1.contacted ≡ o.contacted))
        ⊎ ((reply : ServerReply N) × IsAdmitted config o.incoming reply)
  unfolding run_noise
  run_noise-IsAdmitted config r o = elim (await_client-Outcome config r o) [
    | inl (reply, i, admitted, e) ↦ inr (reply, admitted)
    | inr (e, i, x) ↦ inl (rw (x, run_noise) (refl, refl, refl))
  ]
