-- ===== src/Bench/Wire/Echo.antt =====
-- A measurement against its responder.
use secure_tunnel.Prelude.{
  ℕ, zero, suc, ◌+◌, ◌*◌, ◌≤◌, ◌≡◌, refl, ap, ◌∙◌, subst, ◌⊎◌, inl, inr, [], ◌∷◌, ◌++◌, true, Text,
  Bytes, ok, arith,
}
use secure_tunnel.Prelude.Exec.{Exec}
use secure_tunnel.Tunnel.Io.{Stop, Ending, write_all, flush}
use secure_tunnel.Tunnel.Frames.Wire.{input, read_exact-append}
use secure_tunnel.Tunnel.Meeting.{output}
use secure_tunnel.Bench.Percentile.{Duration}
use secure_tunnel.Bench.Wire.{
  benchmark_bytes, magic, op_first_byte, op_stream, first_byte_reply, Connection, stream_sample,
  first_byte_sample, awaited, respond, serve_connection,
}
use secure_tunnel.Bench.Wire.Transfer.{
  Writer, sends, shuts, sent, Reader, receives, received, Copier, copies, copied, Transfer, spawned,
  Step, writes, shuts_down, copies_in, copies_out, copies_end, reads, Run,
}
use secure_tunnel.Bench.Wire.Flow.{
  IsSound, IsSending, IsReceiving, unsent, unread, held, reads-ne-ended,
}
use secure_tunnel.Bench.Wire.Sound.{Run-IsSound, spawned-IsSound}

abbrev pub connection : Bytes → Bytes → Ending → Connection
connection incoming written ending = record {
  incoming = input incoming ending;
  outgoing = output written;
}

-- Both tasks have ended well, and the responder has.
abbrev pub IsComplete : Transfer → Type 0
IsComplete t =
    (t.writer ≡ sent (ok benchmark_bytes))
    × (t.copier ≡ copied)
    × (t.reader ≡ received (ok benchmark_bytes))

-- While a transfer is not complete, some task can move.
module _ (up_room buffer down_room : ℕ) (t : Transfer) (i : IsSound t) (a_byte : 1 ≤ up_room)
    (a_held : 1 ≤ buffer) (a_reply : 1 ≤ down_room) where
  abbrev Moves : Type 0
  Moves = ((t' : Transfer) × Step up_room buffer down_room t t') ⊎ IsComplete t

  copier_ends :
      (c : Copier)
      → t.copier ≡ c
      → t.writer ≡ sent (ok benchmark_bytes)
      → t.closed ≡ true
      → t.reader ≡ received (ok benchmark_bytes)
      → Moves
  copier_ends (copies zero) e sent_all shut got_all =
      inl (_, copies_end e (omega (arith, i.balance, ap unread got_all)) shut)
  copier_ends (copies (suc n)) e sent_all shut got_all =
      absurd (omega (arith, i.balance, ap unread got_all, ap held e))
  copier_ends copied e sent_all shut got_all = inr (sent_all, e, got_all)

  writer_ends : (w : Writer) → t.writer ≡ w → t.reader ≡ received (ok benchmark_bytes) → Moves
  writer_ends (sends remaining unwritten) e got_all = absurd (
      omega (
        arith,
        i.balance,
        ap unread got_all,
        ap unsent e,
        (subst (IsSending t.closed) e i.sending).0,
      ))
  writer_ends shuts e got_all = inl (_, shuts_down e)
  writer_ends (sent result) e got_all =
      let (good, shut) = subst (IsSending t.closed) e i.sending in
      copier_ends t.copier refl (e ∙ ap sent good) shut got_all

  writer_sends : (w : Writer) → t.writer ≡ w → t.up ≡ 0 → 1 ≤ unsent w → Moves
  writer_sends (sends remaining unwritten) e empty more = inl (
    _,
    writes remaining unwritten 1 e (omega arith) (subst (IsSending t.closed) e i.sending).0
        (omega (arith, empty)),
  )
  writer_sends shuts e empty more = absurd (omega arith)
  writer_sends (sent result) e empty more = absurd (omega arith)

  module _ (remaining missing : ℕ) (waits : t.reader ≡ receives remaining missing) where
    up_moves : (n : ℕ) → t.up ≡ n → t.copier ≡ copies 0 → t.down ≡ 0 → Moves
    up_moves zero e idle none_there = writer_sends t.writer refl e (
        omega (
          arith,
          i.balance,
          ap held idle,
          ap unread waits,
          (subst IsReceiving waits i.receiving).0,
        ))
    up_moves (suc n) e idle none_there =
        inl (_, copies_in 0 1 idle (omega arith) (omega (arith, e)) (omega arith))

    copier_moves : (c : Copier) → t.copier ≡ c → t.down ≡ 0 → Moves
    copier_moves (copies zero) e none_there = up_moves t.up refl e none_there
    copier_moves (copies (suc n)) e none_there =
        inl (_, copies_out (suc n) 1 e (omega arith) (omega arith) (omega (arith, none_there)))
    copier_moves copied e none_there =
        absurd (reads-ne-ended t i remaining missing waits none_there e)

    down_moves : (n : ℕ) → t.down ≡ n → Moves
    down_moves zero e = copier_moves t.copier refl e
    down_moves (suc n) e = inl (
      _,
      reads remaining missing 1 waits (omega arith) (subst IsReceiving waits i.receiving).0
          (omega (arith, e)),
    )

  moves_on : (r : Reader) → t.reader ≡ r → Moves
  moves_on (receives remaining missing) e = down_moves remaining missing e t.down refl
  moves_on (received result) e =
      writer_ends t.writer refl (e ∙ ap received (subst IsReceiving e i.receiving))

-- The two tasks of a stream measurement and its responder run at the same time over a connection that has
-- room for a byte at least each way, as the responder has, and no socket call fails and no task panics.
-- In whatever order they move, and however many bytes each time, they make at most four steps for each
-- byte and two more; as long as not all of them have ended, one can move; and when they have, the two
-- tasks have returned 64 MiB each, so that the measurement, when it has connected, returns the sample.
pub stream_sample-completes :
    (up_room buffer down_room n : ℕ) (t : Transfer) (endpoint : Text) (elapsed : Duration)
    (incoming : Bytes) (ending : Ending)
    → 1 ≤ up_room
    → 1 ≤ buffer
    → 1 ≤ down_room
    → Run up_room buffer down_room spawned n t
    → (n ≤ 4 * benchmark_bytes + 2)
      × (((t' : Transfer) × Step up_room buffer down_room t t')
          ⊎ (IsComplete t
              × (stream_sample endpoint
                    (ok tt)
                    (ok tt)
                    (ok (ok benchmark_bytes))
                    (ok (ok benchmark_bytes))
                    elapsed
                    (connection incoming [] ending)
                  ≡ (
                    ok (record {
                      sent_bytes = benchmark_bytes;
                      received_bytes = benchmark_bytes;
                      elapsed = elapsed;
                    }),
                    connection incoming (magic ++ (op_stream ∷ [])) ending,
                  ))))
unfolding stream_sample awaited write_all flush
stream_sample-completes up_room buffer down_room n t endpoint elapsed incoming ending a_byte a_held
      a_reply run =
    let (begun, all) = spawned-IsSound in
    let (i, le) = Run-IsSound up_room buffer down_room spawned n t run begun in
    (
      omega (arith, all, le),
      elim (moves_on up_room buffer down_room t i a_byte a_held a_reply t.reader refl) [
        | inl more ↦ inl more
        | inr complete ↦ inr (complete, refl)
      ],
    )

-- The responder that reads the header of a stream measurement copies what follows it.
serve_connection-copies :
    (copy : Exec Connection Stop (Unit {0})) (rest : Bytes) (ending : Ending)
    → serve_connection copy (ok tt) (connection (magic ++ (op_stream ∷ rest)) [] ending)
      ≡ copy (connection rest [] ending)
unfolding serve_connection respond
serve_connection-copies copy rest ending =
    rw (read_exact-append 8 magic (op_stream ∷ rest) ending refl)
      (rw (read_exact-append 1 (op_stream ∷ []) rest ending refl) refl)

-- The measurement of the first byte and its responder, each fed what the other has written, when no
-- socket call fails: the sample has the times that were measured, and the responder has answered.
first_byte_sample-answered :
    (copy : Exec Connection Stop (Unit {0})) (endpoint : Text) (rest : Bytes)
    (ending ending' : Ending) (setup elapsed : Duration)
    → (first_byte_sample endpoint
          (ok tt)
          (ok tt)
          setup
          elapsed
          (connection (first_byte_reply ∷ rest) [] ending)
        ≡ (
          ok (record { connection_setup = setup; first_byte = elapsed }),
          connection rest (magic ++ (op_first_byte ∷ [])) ending,
        ))
      × (serve_connection copy (ok tt) (connection (magic ++ (op_first_byte ∷ [])) [] ending')
          ≡ (ok tt, connection [] (first_byte_reply ∷ []) ending'))
unfolding first_byte_sample serve_connection respond write_all flush
first_byte_sample-answered copy endpoint rest ending ending' setup elapsed = (
  rw (read_exact-append 1 (first_byte_reply ∷ []) rest ending refl) refl,
  rw (read_exact-append 8 magic (op_first_byte ∷ []) ending' refl)
      (rw (read_exact-append 1 (op_first_byte ∷ []) [] ending' refl) refl),
)
