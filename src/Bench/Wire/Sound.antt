-- ===== src/Bench/Wire/Sound.antt =====
-- Each step of a stream measurement keeps the balance of its bytes and takes it nearer to its end.
use secure_tunnel.Prelude.{ℕ, suc, ◌+◌, ◌-◌, ◌*◌, ◌≤◌, ◌≡◌, refl, sym, ap, subst, arith}
use secure_tunnel.Bench.Wire.{benchmark_bytes}
use secure_tunnel.Bench.Wire.Transfer.{
  wrote, Transfer, spawned, Step, writes, shuts_down, copies_in, copies_out, copies_end, reads,
  reads_end, Run, begins, goes,
}
use secure_tunnel.Bench.Wire.Flow.{
  unsent, unread, held, IsSending, IsReceiving, IsSound, unshut, uncopied, left, send_round_lem,
  receive_round_lem, wrote_lem, got_lem, unshut-IsCopying, closes-IsCopying, reads-ne-ended,
}

module _ (up_room buffer down_room : ℕ) where
  -- Each step keeps the balance, and leaves fewer.
  pub Step-IsSound :
      (t t' : Transfer)
      → Step up_room buffer down_room t t'
      → IsSound t
      → IsSound t' × (suc (left t') ≤ left t)
  Step-IsSound t t' (writes remaining unwritten k e some_bytes most room) i =
      let (any, small, within, unshut_yet) = subst (IsSending t.closed) e i.sending in
      let (same, sound, one) = wrote_lem remaining (unwritten - k) (omega arith) within in
      let was = ap unsent e in
      let was_one = ap unshut e in
      (
        record {
          balance = omega (arith, same, was, i.balance);
          sending =
              subst (λ b. IsSending b (wrote remaining (unwritten - k))) (sym unshut_yet) sound;
          copying = unshut-IsCopying t.up (t.up + k) t.closed t.copier unshut_yet i.copying;
          receiving = i.receiving;
        },
        omega (arith, same, was, one, was_one),
      )
  Step-IsSound t t' (shuts_down e) i = (
    record {
      balance = omega (arith, ap unsent e, i.balance);
      sending = (refl, refl);
      copying = closes-IsCopying t.up t.closed t.copier i.copying;
      receiving = i.receiving;
    },
    omega (arith, ap unsent e, ap unshut e),
  )
  Step-IsSound t t' (copies_in n k e some_bytes most room) i = (
    record {
      balance = omega (arith, ap held e, i.balance);
      sending = i.sending;
      copying = tt;
      receiving = i.receiving;
    },
    omega (arith, ap held e, ap uncopied e),
  )
  Step-IsSound t t' (copies_out n k e some_bytes most room) i = (
    record {
      balance = omega (arith, ap held e, i.balance);
      sending = i.sending;
      copying = tt;
      receiving = i.receiving;
    },
    omega (arith, ap held e, ap uncopied e),
  )
  Step-IsSound t t' (copies_end e empty shut) i = (
    record {
      balance = omega (arith, ap held e, i.balance);
      sending = i.sending;
      copying = (empty, shut);
      receiving = i.receiving;
    },
    omega (arith, ap held e, ap uncopied e),
  )
  Step-IsSound t t' (reads remaining missing k e some_bytes most there) i =
      let (any, small, within) = subst IsReceiving e i.receiving in
      let (same, sound) = got_lem remaining (missing - k) (omega arith) within in
      (
        record {
          balance = omega (arith, same, ap unread e, i.balance);
          sending = i.sending;
          copying = i.copying;
          receiving = sound;
        },
        omega arith,
      )
  Step-IsSound t t' (reads_end remaining missing e empty ended) i =
      absurd (reads-ne-ended t i remaining missing e empty ended)

  pub Run-IsSound :
      (t : Transfer) (n : ℕ) (t' : Transfer)
      → Run up_room buffer down_room t n t'
      → IsSound t
      → IsSound t' × (n + left t' ≤ left t)
  Run-IsSound t n t' begins i = (i, omega arith)
  Run-IsSound t n t' (goes {n = m} {t' = u} run step) i =
      let (j, le) = Run-IsSound t m u run i in
      let (k, less) = Step-IsSound u t' step j in (k, omega arith)

pub spawned-IsSound : IsSound spawned × (left spawned ≡ 4 * benchmark_bytes + 2)
spawned-IsSound =
    let (all, sending, one) = send_round_lem benchmark_bytes in
    let (all', receiving) = receive_round_lem benchmark_bytes in
    (
      record {
        balance = omega (arith, all, all');
        sending = sending;
        copying = tt;
        receiving = receiving;
      },
      omega (arith, all, one),
    )
