-- ===== src/Tunnel/Serve/Limit.antt =====
-- The connection limit, the shutdown, and the metric of active connections.
use secure_tunnel.Prelude.{
  ℕ, zero, suc, ◌+◌, ◌-◌, ◌%◌, ◌≤◌, ◌≡◌, ◌⊎◌, inl, inr, refl, sym, ◌∙◌, List, [], ◌∷◌, some,
  Option-cases, length, Text, Result, ok, err, arith,
}
use secure_tunnel.Tunnel.Io.{Error}
use secure_tunnel.Tunnel.Telemetry.{u64_mod}
use secure_tunnel.Tunnel.Metrics.{finish_connection}
use secure_tunnel.Tunnel.Metrics.Active.{opened-active, finished-active}
use secure_tunnel.Tunnel.Serve.{
  Phase, accepting, draining, stopped, Serving, Event, signalled, accepted, session_ended,
  session_panicked, remove_at, stop_if_none, drained, accept, on_accept, on_signal, step,
  serve_loop, serving,
}

pub remove_at-length :
    (i : ℕ) (xs ys : List ℕ) → remove_at i xs ≡ some ys → length xs ≡ length ys + 1
remove_at-length i [] ys h = cc
remove_at-length zero (x ∷ xs) ys h = ground arith
remove_at-length (suc i) (x ∷ xs) ys h = elim (Option-cases (remove_at i xs)) [
  | inl e ↦ absurd (ground arith)
  | inr (zs, e) ↦ ground (arith, remove_at-length i xs zs e)
]

-- While the process accepts or drains, the running sessions and the free permits make up the limit,
-- and the active connections are the running sessions and those that panicked; an error that stops
-- it drops the sessions.  It drains as long as a session runs.
abbrev pub Accounts : ℕ → Phase → ℕ → ℕ → ℕ → ℕ → Type 0
Accounts max accepting running permits panics active =
    (running + permits ≡ max) × (active ≡ (running + panics) % u64_mod)
Accounts max draining running permits panics active =
    (running + permits ≡ max) × (active ≡ (running + panics) % u64_mod) × (1 ≤ running)
Accounts max (stopped r) running permits panics active = running ≡ 0

abbrev pub IsWithin : ℕ → Serving → Type 0
IsWithin max s =
    Accounts max s.phase (length s.running) s.permits s.panics s.metrics.active_connections

accept-Accounts :
    (max : ℕ) (s : Serving) (free now : ℕ)
    → s.permits ≡ free
    → Accounts max accepting (length s.running) s.permits s.panics s.metrics.active_connections
    → Accounts max accepting
        (length (accept s free now).running)
        (accept s free now).permits
        (accept s free now).panics
        (accept s free now).metrics.active_connections
unfolding accept
accept-Accounts max s zero now p w = w
accept-Accounts max s (suc free) now p (sum, act) =
    (omega arith, omega (arith, opened-active s.metrics now))

accept-phase : (s : Serving) (free now : ℕ) → (accept s free now).phase ≡ s.phase
unfolding accept
accept-phase s zero now = refl
accept-phase s (suc free) now = refl

at_phase :
    (max : ℕ) (p : Phase) (s : Serving)
    → s.phase ≡ p
    → Accounts max p (length s.running) s.permits s.panics s.metrics.active_connections
    → IsWithin max s
at_phase max p s e w = rw (sym e) at w

on_accept-IsWithin :
    (max : ℕ) (p : Phase) (r : Result Text (Unit {0})) (now : ℕ) (s : Serving)
    → s.phase ≡ p
    → IsWithin max s
    → IsWithin max (on_accept p r now s)
unfolding on_accept
on_accept-IsWithin max accepting (ok u) now s e w =
    at_phase max accepting (accept s s.permits now) (accept-phase s s.permits now ∙ e)
      (accept-Accounts max s s.permits now refl (rw e at w))
on_accept-IsWithin max accepting (err t) now s e w = refl
on_accept-IsWithin max draining r now s e w = w
on_accept-IsWithin max (stopped x) r now s e w = w

drained_stays : (x : ℕ) (xs : List ℕ) (s : Serving) → s.running ≡ x ∷ xs → drained s draining ≡ s
drained_stays x xs s f = go s.running f
  where
    go : (ys : List ℕ) → ys ≡ x ∷ xs → stop_if_none ys s ≡ s
    go [] g = absurd (cc)
    go (y ∷ zs) g = refl

-- The metric after a session has left: `finish_connection` has run, or it was skipped by a panic.
abbrev Counted : ℕ → ℕ → ℕ → ℕ → Type 0
Counted panics active panics' active' =
    ((panics' ≡ panics) × (active' ≡ (active + u64_mod - 1) % u64_mod))
    ⊎ ((panics' ≡ panics + 1) × (active' ≡ active))

Counted-left :
    (running panics active panics' active' : ℕ)
    → active ≡ (running + 1 + panics) % u64_mod
    → Counted panics active panics' active'
    → active' ≡ (running + panics') % u64_mod
Counted-left n k a k' a' h (inl (e, f)) = omega arith
Counted-left n k a k' a' h (inr (e, f)) = omega arith

-- A session has left: the rest is drained if the process is draining.
drained-IsWithin :
    (max before permits panics active : ℕ) (p : Phase) (xs : List ℕ) (s : Serving)
    → Accounts max p before permits panics active
    → before ≡ length xs + 1
    → s.phase ≡ p
    → s.running ≡ xs
    → s.permits ≡ permits + 1
    → Counted panics active s.panics s.metrics.active_connections
    → IsWithin max (drained s p)
drained-IsWithin max b n k a accepting xs s (sum, act) l e f g h =
    at_phase max accepting s e
      (rw f (omega arith), rw f (Counted-left (length xs) k a s.panics _ (rw l at act) h))
drained-IsWithin max b n k a draining [] s w l e f g h = rw f refl
drained-IsWithin max b n k a draining (x ∷ xs) s (sum, act, some_left) l e f g h =
    rw (drained_stays x xs s f) (
      at_phase max draining s e (
        rw f (omega arith),
        rw f (Counted-left (length (x ∷ xs)) k a s.panics _ (rw l at act) h),
        rw f (ground arith),
      ))
drained-IsWithin max b n k a (stopped r) xs s w l e f g h = absurd (omega arith)

on_signal-IsWithin :
    (max : ℕ) (p : Phase) (r : Result Error (Unit {0})) (xs : List ℕ) (s : Serving)
    → s.phase ≡ p
    → s.running ≡ xs
    → IsWithin max s
    → IsWithin max (on_signal p r s)
unfolding on_signal
on_signal-IsWithin max accepting (ok u) [] s e f w = rw f refl
on_signal-IsWithin max accepting (ok u) (x ∷ xs) s e f w =
    rw (drained_stays x xs (record s { phase = draining }) f) (go (rw e at w))
  where
    go :
        Accounts max accepting (length s.running) s.permits s.panics s.metrics.active_connections
        → IsWithin max (record s { phase = draining })
    go (sum, act) = (sum, act, rw f (ground arith))
on_signal-IsWithin max accepting (err r) xs s e f w = refl
on_signal-IsWithin max draining r xs s e f w = w
on_signal-IsWithin max (stopped x) r xs s e f w = w

step-IsWithin : (max : ℕ) (e : Event) (s : Serving) → IsWithin max s → IsWithin max (step e s)
unfolding step
step-IsWithin max (signalled r) s w = on_signal-IsWithin max s.phase r s.running s refl refl w
step-IsWithin max (accepted r now) s w = on_accept-IsWithin max s.phase r now s refl w
step-IsWithin max (session_ended i t r now) s w = elim (Option-cases (remove_at i s.running)) [
  | inl e ↦ rw (e, step) w
  | inr (rest, e) ↦
      rw (e, step)
        (drained-IsWithin max (length s.running) s.permits s.panics s.metrics.active_connections
          s.phase rest
          (record s {
            running = rest;
            permits = s.permits + 1;
            metrics = (finish_connection s.metrics t r now).0;
          })
          w (remove_at-length i s.running rest e) refl refl refl
          (inl (refl, finished-active s.metrics t r now)))
]
step-IsWithin max (session_panicked i) s w = elim (Option-cases (remove_at i s.running)) [
  | inl e ↦ rw (e, step) w
  | inr (rest, e) ↦
      rw (e, step)
        (drained-IsWithin max (length s.running) s.permits s.panics s.metrics.active_connections
          s.phase rest (record s { running = rest; permits = s.permits + 1; panics = s.panics + 1 })
          w (remove_at-length i s.running rest e) refl refl refl (inr (refl, refl)))
]

loop-IsWithin :
    (max : ℕ) (es : List Event) (s : Serving) → IsWithin max s → IsWithin max (serve_loop es s)
unfolding serve_loop
loop-IsWithin max [] s w = w
loop-IsWithin max (e ∷ es) s w = loop-IsWithin max es (step e s) (step-IsWithin max e s w)

-- Whatever connections, endings of sessions, panics and signals the process meets, in any order: while
-- it accepts or drains, the running sessions and the free permits make up the connection limit and
-- the active connections of the metrics are the running sessions and those that panicked (modulo
-- 2^64); it drains only as long as a session runs, and none runs when it has stopped.
pub serve_loop-IsWithin : (max : ℕ) (es : List Event) → IsWithin max (serve_loop es (serving max))
unfolding serving
serve_loop-IsWithin max es = loop-IsWithin max es (serving max) (omega arith, refl)
