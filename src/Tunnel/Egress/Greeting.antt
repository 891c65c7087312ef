-- ===== src/Tunnel/Egress/Greeting.antt =====
-- What the egress sends, as the ingress reads it.
use secure_tunnel.Prelude.{
  ◌≡◌, ◌≤◌, refl, inl, inr, [], ◌++◌, append-nil, Bool, false, Bool-cases, length, Bytes, ok,
  Result-cases,
}
use secure_tunnel.Protocol.Error.{max_handshake_message}
use secure_tunnel.Protocol.Preface.{preface_bytes, encode}
use secure_tunnel.Protocol.Frame.{decode_handshake_frame}
use secure_tunnel.Protocol.Frame.RoundTrip.{decode_handshake_complete}
use secure_tunnel.Protocol.Noise.{Noise}
use secure_tunnel.Protocol.Client.{ClientHandshake, new, first_message}
use secure_tunnel.Protocol.Client.Message.{first_message-ok}
use secure_tunnel.Tunnel.Io.{Ending, Input, read_exact, write_all, flush}
use secure_tunnel.Tunnel.Frames.{read_handshake_frame}
use secure_tunnel.Tunnel.Frames.Wire.{input, read_exact-append}
use secure_tunnel.Tunnel.Frames.Handshake.{read_handshake_frame-encoded}
use secure_tunnel.Tunnel.Egress.{Patience, Remote, complete_noise_handshake}

module _ (N : Noise) where
  open N use {SnowError}

  -- A stream to which nothing was written, and which meets no fault.
  abbrev pub unwritten : Input → Bool → Remote
  unwritten incoming flag = record {
    incoming = incoming;
    outgoing = record { written = []; shut = false; faults = [] };
    handshake_succeeded = flag;
  }

  greeting_written :
      (private server : Bytes) (patience : Patience) (i : Input) (flag : Bool)
      (h : ClientHandshake N) (frame : Bytes)
      → new N private server ≡ ok h
      → (first_message N h).0 ≡ ok frame
      → (complete_noise_handshake N private server patience (unwritten i flag)).1.outgoing.written
        ≡ preface_bytes ++ frame
  unfolding complete_noise_handshake write_all flush encode
  greeting_written private server patience i flag h frame made sent =
      elim (Bool-cases patience.in_time) [
        | inr late ↦ rw (made, sent, late, complete_noise_handshake) (rw append-nil refl)
        | inl prompt ↦ elim (Result-cases (read_handshake_frame i).0) [
          | inl (reply, got) ↦
              rw (made, sent, prompt, got, complete_noise_handshake) (rw append-nil refl)
          | inr (e, failed) ↦
              rw (made, sent, prompt, failed, complete_noise_handshake) (rw append-nil refl)
        ]
      ]

  -- For a client handshake that can be set up and whose first message can be written, on a stream
  -- whose writes do not fail, and whatever the server answers: what the egress has sent is, for
  -- the ingress, the preface of version 1 and then one handshake frame, with nothing left over;
  -- the frame is that first message, and decodes to a message of at most 4096 bytes.
  pub complete_noise_handshake_understood :
      (private server : Bytes) (patience : Patience) (i : Input) (flag : Bool) (ending : Ending)
      (h : ClientHandshake N) (frame : Bytes)
      → new N private server ≡ ok h
      → (first_message N h).0 ≡ ok frame
      → let sent =
          (complete_noise_handshake N private server patience
            (unwritten i flag)).1.outgoing.written in
        (read_exact 6 (input sent ending) ≡ (ok preface_bytes, input frame ending))
        × (read_handshake_frame (input frame ending) ≡ (ok frame, input [] ending))
        × (message : Bytes) × (decode_handshake_frame {S = SnowError} frame ≡ ok message)
        × (length message ≤ max_handshake_message)
  complete_noise_handshake_understood private server patience i flag ending h frame made sent =
      let (message, framed, small) = first_message-ok N h frame sent in
      (
        rw (greeting_written private server patience i flag h frame made sent)
            (read_exact-append 6 preface_bytes frame ending refl),
        rw framed (rw append-nil at (read_handshake_frame-encoded message [] ending small)),
        message,
        rw framed (decode_handshake_complete message small),
        small,
      )
