-- ===== src/Bench/Wire/Transfer.antt =====
-- The stream measurement while it runs: the writer and the reader that `stream_sample` of bench/src/lib.rs
-- spawns, the responder that copies what it reads back, and the connection between them, whose two
-- directions hold a limited number of bytes.  The bytes are all alike, so they are counted.
use secure_tunnel.Prelude.{
  ℕ, zero, suc, ◌+◌, ◌-◌, ◌≤◌, ◌≡◌, Bool, true, false, Text, codes, Result, ok, err,
}
use secure_tunnel.Bench.Wire.{benchmark_bytes, chunk}

-- `sends remaining unwritten`: in `write_all` of a buffer of which `unwritten` bytes are left; `remaining`
-- still counts the whole buffer.
pub data Writer : Type 0 where
  sends : ℕ → ℕ → Writer
  shuts : Writer
  sent : Result Text ℕ → Writer

-- `receives remaining unread`: in `read_exact` of a buffer of which `unread` bytes are missing.
pub data Reader : Type 0 where
  receives : ℕ → ℕ → Reader
  received : Result Text ℕ → Reader

-- `tokio::io::copy` in `serve_connection`, with the bytes that it holds.
pub data Copier : Type 0 where
  copies : ℕ → Copier
  copied : Copier

-- A round of the writer's loop.
abbrev pub send_round : ℕ → Writer
send_round zero = shuts
send_round (suc n) = sends (suc n) (chunk (suc n))

abbrev pub wrote : ℕ → ℕ → Writer
wrote remaining zero = send_round (remaining - chunk remaining)
wrote remaining (suc unwritten) = sends remaining (suc unwritten)

-- A round of the reader's loop.
abbrev pub receive_round : ℕ → Reader
receive_round zero = received (ok benchmark_bytes)
receive_round (suc n) = receives (suc n) (chunk (suc n))

abbrev pub got : ℕ → ℕ → Reader
got remaining zero = receive_round (remaining - chunk remaining)
got remaining (suc unread) = receives remaining (suc unread)

-- The bytes on the way in each direction, and whether the writer has shut its direction down.
pub record Transfer : Type 0 where
  pub writer : Writer
  pub up : ℕ
  pub closed : Bool
  pub copier : Copier
  pub down : ℕ
  pub reader : Reader

abbrev pub spawned : Transfer
spawned = record {
  writer = send_round benchmark_bytes;
  up = 0;
  closed = false;
  copier = copies 0;
  down = 0;
  reader = receive_round benchmark_bytes;
}

-- One step of one of the three tasks; which one, and how many bytes it moves, is up to the runtime.  `up_room`
-- and `down_room` are what the two directions can hold, `buffer` is what the responder can.  A task for which
-- there is no byte, or no room, waits.
module _ (up_room buffer down_room : ℕ) where
  pub data Step (t : Transfer) : Transfer → Type 0 where
    writes :
        (remaining unwritten k : ℕ)
        → t.writer ≡ sends remaining unwritten
        → 1 ≤ k
        → k ≤ unwritten
        → t.up + k ≤ up_room
        → Step t (record t { writer = wrote remaining (unwritten - k); up = t.up + k })
    shuts_down :
        t.writer ≡ shuts → Step t (record t { writer = sent (ok benchmark_bytes); closed = true })
    copies_in :
        (held k : ℕ)
        → t.copier ≡ copies held
        → 1 ≤ k
        → k ≤ t.up
        → held + k ≤ buffer
        → Step t (record t { up = t.up - k; copier = copies (held + k) })
    copies_out :
        (held k : ℕ)
        → t.copier ≡ copies held
        → 1 ≤ k
        → k ≤ held
        → t.down + k ≤ down_room
        → Step t (record t { copier = copies (held - k); down = t.down + k })
    copies_end :
        t.copier ≡ copies 0 → t.up ≡ 0 → t.closed ≡ true → Step t (record t { copier = copied })
    reads :
        (remaining unread k : ℕ)
        → t.reader ≡ receives remaining unread
        → 1 ≤ k
        → k ≤ unread
        → k ≤ t.down
        → Step t (record t { down = t.down - k; reader = got remaining (unread - k) })
    reads_end :
        (remaining unread : ℕ)
        → t.reader ≡ receives remaining unread
        → t.down ≡ 0
        → t.copier ≡ copied
        → Step t (record t { reader = received (err (codes "early eof")) })

  -- What can become of a transfer in a number of steps.
  pub data Run (t : Transfer) : ℕ → Transfer → Type 0 where
    begins : Run t 0 t
    goes : {n : ℕ} {t' t'' : Transfer} → Run t n t' → Step t' t'' → Run t (suc n) t''
