-- ===== src/Tunnel/Serve/Shutdown.antt =====
-- The end of `serve` after the shutdown signal.
use secure_tunnel.Prelude.{
  ℕ, zero, suc, ◌+◌, ◌-◌, ◌≤◌, ◌<◌, ◌≡◌, refl, ap, sym, ◌∙◌, List, [], ◌∷◌, some, length, Text,
  Result, ok, arith,
}
use secure_tunnel.Tunnel.Io.{Error}
use secure_tunnel.Tunnel.Telemetry.{ConnectionTelemetry}
use secure_tunnel.Tunnel.Metrics.{finish_connection}
use secure_tunnel.Tunnel.Serve.{
  Phase, accepting, draining, stopped, Serving, Event, signalled, accepted, session_ended,
  session_panicked, remove_at, stop_if_none, drained, on_accept, on_signal, step, serve_loop,
}
use secure_tunnel.Tunnel.Serve.Limit.{remove_at-length}

-- The phase of a process that drains these sessions.
abbrev drain_phase : List ℕ → Phase
drain_phase [] = stopped (ok tt)
drain_phase (x ∷ xs) = draining

-- In these events each of `n` sessions ends or panics once, in any order; signals and connections may
-- come at any time.
abbrev pub AllLeave : List Event → ℕ → Type 0
AllLeave [] n = n ≡ 0
AllLeave (signalled r ∷ es) n = AllLeave es n
AllLeave (accepted r now ∷ es) n = AllLeave es n
AllLeave (session_ended i t r now ∷ es) n = (i < n) × AllLeave es (n - 1)
AllLeave (session_panicked i ∷ es) n = (i < n) × AllLeave es (n - 1)

remove_at-some : (i : ℕ) (xs : List ℕ) → i < length xs → (ys : List ℕ) × (remove_at i xs ≡ some ys)
remove_at-some i [] h = absurd (ground arith)
remove_at-some zero (x ∷ xs) h = (xs, refl)
remove_at-some (suc i) (x ∷ xs) h =
    let (ys, e) = remove_at-some i xs (ground arith) in (x ∷ ys, rw e refl)

pred_left : (i : ℕ) (xs ys : List ℕ) → remove_at i xs ≡ some ys → length ys ≡ length xs - 1
pred_left i xs ys e = omega (arith, remove_at-length i xs ys e)

-- Once the signal has come, only the end of a session changes the state.
ignores-signal :
    (p : Phase) (xs : List ℕ) (r : Result Error (Unit {0})) (s : Serving)
    → p ≡ drain_phase xs
    → on_signal p r s ≡ s
unfolding on_signal
ignores-signal p [] r s e = rw e refl
ignores-signal p (x ∷ xs) r s e = rw e refl

ignores-accept :
    (p : Phase) (xs : List ℕ) (r : Result Text (Unit {0})) (now : ℕ) (s : Serving)
    → p ≡ drain_phase xs
    → on_accept p r now s ≡ s
unfolding on_accept
ignores-accept p [] r now s e = rw e refl
ignores-accept p (x ∷ xs) r now s e = rw e refl

stop_if_none-phase :
    (ys : List ℕ) (s : Serving) → s.phase ≡ draining → (stop_if_none ys s).phase ≡ drain_phase ys
stop_if_none-phase [] s e = refl
stop_if_none-phase (y ∷ ys) s e = e

stop_if_none-running : (ys : List ℕ) (s : Serving) → (stop_if_none ys s).running ≡ s.running
stop_if_none-running [] s = refl
stop_if_none-running (y ∷ ys) s = refl

drained-drains :
    (p : Phase) (xs : List ℕ) (s : Serving)
    → p ≡ drain_phase xs
    → 1 ≤ length xs
    → s.phase ≡ p
    → ((drained s p).phase ≡ drain_phase (drained s p).running)
      × ((drained s p).running ≡ s.running)
drained-drains p [] s e l f = absurd (ground arith)
drained-drains p (x ∷ xs) s e l f = rw e (
  stop_if_none-phase s.running s (f ∙ e) ∙ ap drain_phase (sym (stop_if_none-running s.running s)),
  stop_if_none-running s.running s,
)

-- What a session leaves behind.
abbrev ended_with : ConnectionTelemetry → Result Error (Unit {0}) → ℕ → List ℕ → Serving → Serving
ended_with t r now ys s = record s {
  running = ys;
  permits = s.permits + 1;
  metrics = (finish_connection s.metrics t r now).0;
}

abbrev panicked_with : List ℕ → Serving → Serving
panicked_with ys s = record s { running = ys; permits = s.permits + 1; panics = s.panics + 1 }

step_ended :
    (i : ℕ) (t : ConnectionTelemetry) (r : Result Error (Unit {0})) (now : ℕ) (ys : List ℕ)
    (s : Serving)
    → remove_at i s.running ≡ some ys
    → step (session_ended i t r now) s ≡ drained (ended_with t r now ys s) s.phase
unfolding step
step_ended i t r now ys s f = rw (f, step) refl

step_panicked :
    (i : ℕ) (ys : List ℕ) (s : Serving)
    → remove_at i s.running ≡ some ys
    → step (session_panicked i) s ≡ drained (panicked_with ys s) s.phase
unfolding step
step_panicked i ys s f = rw (f, step) refl

loop_drains :
    (es : List Event) (s : Serving)
    → s.phase ≡ drain_phase s.running
    → AllLeave es (length s.running)
    → (serve_loop es s).phase ≡ stopped (ok tt)
unfolding serve_loop step
loop_drains [] s e h = e ∙ none_left s.running h
  where
    none_left : (xs : List ℕ) → length xs ≡ 0 → drain_phase xs ≡ stopped (ok tt)
    none_left [] l = refl
    none_left (x ∷ xs) l = absurd (ground arith)
loop_drains (signalled r ∷ es) s e h =
    ap (λ t. (serve_loop es t).phase) (ignores-signal s.phase s.running r s e)
    ∙ loop_drains es s e h
loop_drains (accepted r now ∷ es) s e h =
    ap (λ t. (serve_loop es t).phase) (ignores-accept s.phase s.running r now s e)
    ∙ loop_drains es s e h
loop_drains (session_ended i t r now ∷ es) s e (i<n, h) =
    let (ys, f) = remove_at-some i s.running i<n in
    let (g, k) = drained-drains s.phase s.running (ended_with t r now ys s) e (omega arith) refl in
    ap (λ u. (serve_loop es u).phase) (step_ended i t r now ys s f)
    ∙ loop_drains es _ g (rw (k, pred_left i s.running ys f) h)
loop_drains (session_panicked i ∷ es) s e (i<n, h) =
    let (ys, f) = remove_at-some i s.running i<n in
    let (g, k) = drained-drains s.phase s.running (panicked_with ys s) e (omega arith) refl in
    ap (λ u. (serve_loop es u).phase) (step_panicked i ys s f)
    ∙ loop_drains es _ g (rw (k, pred_left i s.running ys f) h)

-- After the shutdown signal, whatever connections and further signals come in between: `serve`
-- returns without an error as soon as each of its sessions has ended or panicked, in any order.
pub shutdown_drains :
    (s : Serving) (es : List Event)
    → s.phase ≡ accepting
    → AllLeave es (length s.running)
    → (serve_loop (signalled (ok tt) ∷ es) s).phase ≡ stopped (ok tt)
unfolding serve_loop step on_signal
shutdown_drains s es e h =
    let t = record s { phase = draining } in
    rw e (
      loop_drains es (stop_if_none s.running t)
        (stop_if_none-phase s.running t refl
          ∙ ap drain_phase (sym (stop_if_none-running s.running t)))
        (rw (stop_if_none-running s.running t) h))
