-- ===== src/Bench/Wire/Flow.antt =====
-- What holds all through a stream measurement, so that no byte is lost, and the steps that are left.
use secure_tunnel.Prelude.{
  ℕ, zero, suc, ◌+◌, ◌-◌, ◌*◌, ◌≤◌, ◌≡◌, ◌≢◌, refl, ap, subst, Bool, true, false, ok, arith,
}
use secure_tunnel.Bench.Wire.{benchmark_bytes, chunk}
use secure_tunnel.Bench.Wire.Transfer.{
  Writer, sends, shuts, sent, Reader, receives, received, Copier, copies, copied, send_round, wrote,
  receive_round, got, Transfer,
}

chunk-bounds : (n : ℕ) → (1 ≤ chunk (suc n)) × (chunk (suc n) ≤ suc n)
chunk-bounds n = ground arith

abbrev pub unsent : Writer → ℕ
unsent (sends remaining unwritten) = remaining - chunk remaining + unwritten
unsent shuts = 0
unsent (sent result) = 0

abbrev pub unread : Reader → ℕ
unread (receives remaining missing) = remaining - chunk remaining + missing
unread (received result) = 0

abbrev pub held : Copier → ℕ
held (copies n) = n
held copied = 0

-- What each task can be while the measurement goes well.
abbrev pub IsSending : Bool → Writer → Type 0
IsSending closed (sends remaining unwritten) =
    (1 ≤ unwritten)
    × (unwritten ≤ chunk remaining)
    × (chunk remaining ≤ remaining)
    × (closed ≡ false)
IsSending closed shuts = closed ≡ false
IsSending closed (sent result) = (result ≡ ok benchmark_bytes) × (closed ≡ true)

abbrev pub IsReceiving : Reader → Type 0
IsReceiving (receives remaining missing) =
    (1 ≤ missing) × (missing ≤ chunk remaining) × (chunk remaining ≤ remaining)
IsReceiving (received result) = result ≡ ok benchmark_bytes

-- The responder ends only behind the last byte.
abbrev pub IsCopying : ℕ → Bool → Copier → Type 0
IsCopying up closed (copies n) = Unit {0}
IsCopying up closed copied = (up ≡ 0) × (closed ≡ true)

pub record IsSound (t : Transfer) : Type 0 where
  pub balance : unsent t.writer + t.up + held t.copier + t.down ≡ unread t.reader
  pub sending : IsSending t.closed t.writer
  pub copying : IsCopying t.up t.closed t.copier
  pub receiving : IsReceiving t.reader

-- The steps that are left at most: four for each byte that is not sent, and one for each task's end.
abbrev pub unshut : Writer → ℕ
unshut (sends remaining unwritten) = 1
unshut shuts = 1
unshut (sent result) = 0

abbrev pub uncopied : Copier → ℕ
uncopied (copies n) = 1
uncopied copied = 0

abbrev pub left : Transfer → ℕ
left t =
    4 * unsent t.writer
    + unshut t.writer
    + 3 * t.up
    + 2 * held t.copier
    + uncopied t.copier
    + t.down

pub send_round_lem :
    (n : ℕ)
    → (unsent (send_round n) ≡ n) × IsSending false (send_round n) × (unshut (send_round n) ≡ 1)
send_round_lem zero = (refl, refl, refl)
send_round_lem (suc n) =
    let (some_left, within) = chunk-bounds n in
    (omega arith, (some_left, omega arith, within, refl), refl)

pub receive_round_lem : (n : ℕ) → (unread (receive_round n) ≡ n) × IsReceiving (receive_round n)
receive_round_lem zero = (refl, refl)
receive_round_lem (suc n) =
    let (some_left, within) = chunk-bounds n in (omega arith, (some_left, omega arith, within))

pub wrote_lem :
    (remaining unwritten : ℕ)
    → unwritten ≤ chunk remaining
    → chunk remaining ≤ remaining
    → (unsent (wrote remaining unwritten) ≡ remaining - chunk remaining + unwritten)
      × IsSending false (wrote remaining unwritten)
      × (unshut (wrote remaining unwritten) ≡ 1)
wrote_lem remaining zero small within =
    let (same, sound, one) = send_round_lem (remaining - chunk remaining) in
    (omega (arith, same), sound, one)
wrote_lem remaining (suc n) small within = (refl, (omega arith, small, within, refl), refl)

pub got_lem :
    (remaining missing : ℕ)
    → missing ≤ chunk remaining
    → chunk remaining ≤ remaining
    → (unread (got remaining missing) ≡ remaining - chunk remaining + missing)
      × IsReceiving (got remaining missing)
got_lem remaining zero small within =
    let (same, rest) = receive_round_lem (remaining - chunk remaining) in
    (omega (arith, same), rest)
got_lem remaining (suc n) small within = (refl, (omega arith, small, within))

-- A stream that is not shut down is still copied.
pub unshut-IsCopying :
    (up up' : ℕ) (closed : Bool) (c : Copier)
    → closed ≡ false
    → IsCopying up closed c
    → IsCopying up' closed c
unshut-IsCopying up up' closed (copies n) e h = tt
unshut-IsCopying up up' closed copied e (none_left, shut) = absurd (cc)

pub closes-IsCopying :
    (up : ℕ) (closed : Bool) (c : Copier) → IsCopying up closed c → IsCopying up true c
closes-IsCopying up closed (copies n) h = tt
closes-IsCopying up closed copied (none_left, shut) = (none_left, refl)

sending-ne-shut : (closed : Bool) (w : Writer) → closed ≡ true → IsSending closed w → unsent w ≡ 0
sending-ne-shut closed (sends remaining unwritten) shut (any, small, within, unshut_yet) =
    absurd (cc)
sending-ne-shut closed shuts shut unshut_yet = refl
sending-ne-shut closed (sent result) shut s = refl

-- The responder is not through while the reader waits for a byte and none is there.
pub reads-ne-ended :
    (t : Transfer)
    → IsSound t
    → (remaining missing : ℕ) → t.reader ≡ receives remaining missing
    → t.down ≡ 0
    → t.copier ≢ copied
reads-ne-ended t i remaining missing e empty ended =
    let (none_left, shut) = subst (λ c. IsCopying t.up t.closed c) ended i.copying in
    let all_sent = sending-ne-shut t.closed t.writer shut i.sending in
    let (any, small, within) = subst IsReceiving e i.receiving in
    omega (arith, i.balance, ap held ended, ap unread e)
