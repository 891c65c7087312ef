-- ===== src/Tunnel/Relay/Ends.antt =====
-- When and how a relay ends.
use secure_tunnel.Prelude.{
  ℕ, ◌+◌, ◌≤◌, ◌≡◌, ◌≢◌, ◌↔◌, ◌⊎◌, inl, inr, refl, subst, List, [], ◌∷◌, ◌++◌, some, true, false,
  codes, ok, err, arith,
}
use secure_tunnel.Tunnel.Io.{anyhow}
use secure_tunnel.Tunnel.Relay.{
  returned, panicked, Event, guarded_joined, closing_joined, activity_received, timer_fired,
  shutdown_changed, TaskNames, RelayState, RelayEnd, Reaction, goes_on, ends, react, relay_loop,
  start,
}

module _ (names : TaskNames) (idle : ℕ) where
  -- The events that the loop survives.
  pub data Passes : RelayState → List (ℕ × Event) → RelayState → Type 0 where
    stays : {s : RelayState} → Passes s [] s
    turns :
        {s s' s'' : RelayState} {now : ℕ} {event : Event} {events : List (ℕ × Event)}
        → react names idle s now event ≡ goes_on s'
        → Passes s' events s''
        → Passes s ((now, event) ∷ events) s''

  -- The event that ended the loop, the state before it and what came before.
  pub record EndedBy (s : RelayState) (events : List (ℕ × Event)) (end : RelayEnd) : Type 0 where
    pub before : List (ℕ × Event)
    pub now : ℕ
    pub event : Event
    pub after : List (ℕ × Event)
    pub state : RelayState
    pub split : events ≡ before ++ (now, event) ∷ after
    pub survives : Passes s before state
    pub last : react names idle state now event ≡ ends end

  pub Reaction-cases :
      (r : Reaction) → ((s : RelayState) × (r ≡ goes_on s)) ⊎ ((e : RelayEnd) × (r ≡ ends e))
  Reaction-cases (goes_on s) = inl (s, refl)
  Reaction-cases (ends e) = inr (e, refl)

  pub relay_loop-EndedBy :
      (s : RelayState) (events : List (ℕ × Event)) (end : RelayEnd)
      → relay_loop names idle s events ≡ some end
      → EndedBy s events end
  unfolding relay_loop
  relay_loop-EndedBy s [] end h = cc
  relay_loop-EndedBy s ((now, event) ∷ events) end h =
      elim (Reaction-cases (react names idle s now event)) [
        | inl (s', e) ↦ longer s' e (relay_loop-EndedBy s' events end (rw (e, relay_loop) at h))
        | inr (end', e) ↦ record {
          before = [];
          now = now;
          event = event;
          after = events;
          state = s;
          split = refl;
          survives = stays;
          last = ground arith;
        }
      ]
    where
      longer :
          (s' : RelayState)
          → react names idle s now event ≡ goes_on s'
          → EndedBy s' events end
          → EndedBy s ((now, event) ∷ events) end
      longer s' e r = record {
        before = (now, event) ∷ r.before;
        now = r.now;
        event = r.event;
        after = r.after;
        state = r.state;
        split = ground (arith, r.split);
        survives = turns e r.survives;
        last = r.last;
      }

  abbrev pub IsPanic : Event → Type 0
  IsPanic (guarded_joined (panicked text)) = Unit {0}
  IsPanic (guarded_joined (returned r)) = ⊥
  IsPanic (closing_joined (panicked text)) = Unit {0}
  IsPanic (closing_joined (returned r)) = ⊥
  IsPanic (activity_received b) = ⊥
  IsPanic timer_fired = ⊥
  IsPanic shutdown_changed = ⊥

  pub react-ends :
      (s : RelayState) (now : ℕ) (event : Event) (end : RelayEnd)
      → react names idle s now event ≡ ends end
      → ((event ≡ closing_joined (returned (ok tt))) ⊎ (end.result ≢ ok tt))
        × ((end.aborted ≡ false) ↔ IsPanic event)
  unfolding react
  react-ends s now (guarded_joined (panicked text)) end h = ground arith
  react-ends s now (guarded_joined (returned (ok u))) end h = ground arith
  react-ends s now (guarded_joined (returned (err e))) end h = ground arith
  react-ends s now (closing_joined (panicked text)) end h = ground arith
  react-ends s now (closing_joined (returned (ok u))) end h = ground arith
  react-ends s now (closing_joined (returned (err e))) end h = ground arith
  react-ends s now (activity_received true) end h = ground arith
  react-ends s now (activity_received false) end h = ground arith
  react-ends s now timer_fired end h = ground arith
  react-ends s now shutdown_changed end h = ground arith

  -- A relay that ends well was ended by the closing task's good end, which nothing before it had
  -- forestalled; and a relay has aborted its two tasks unless a panic of one of them ended it.
  pub relay_end :
      (s : RelayState) (events : List (ℕ × Event)) (end : RelayEnd)
      → relay_loop names idle s events ≡ some end
      → (by : EndedBy s events end) × ((by.event ≡ closing_joined (returned (ok tt)))
          ⊎ (end.result ≢ ok tt))
        × ((end.aborted ≡ false) ↔ IsPanic by.event)
  relay_end s events end h =
      let by = relay_loop-EndedBy s events end h in
      let (good, panic) = react-ends by.state by.now by.event end by.last in (by, good, panic)

  -- Times that do not go back.
  abbrev pub IsFrom : ℕ → List (ℕ × Event) → Type 0
  IsFrom t [] = Unit {0}
  IsFrom t ((now, event) ∷ events) = (t ≤ now) × IsFrom now events

  -- Activity that was received is at least the idle time ago.
  abbrev pub IsQuietAt : ℕ → List (ℕ × Event) → Type 0
  IsQuietAt d [] = Unit {0}
  IsQuietAt d ((now, event) ∷ events) =
      ((event ≢ activity_received true) ⊎ (now + idle ≤ d)) × IsQuietAt d events

  react-deadline :
      (s s' : RelayState) (now : ℕ) (event : Event)
      → react names idle s now event ≡ goes_on s'
      → ((s'.deadline ≡ now + idle) × (event ≡ activity_received true))
        ⊎ ((s'.deadline ≡ s.deadline) × (event ≢ activity_received true))
  unfolding react
  react-deadline s s' now (guarded_joined (panicked text)) h = ground arith
  react-deadline s s' now (guarded_joined (returned (ok u))) h = ground arith
  react-deadline s s' now (guarded_joined (returned (err e))) h = ground arith
  react-deadline s s' now (closing_joined (panicked text)) h = absurd (cc)
  react-deadline s s' now (closing_joined (returned r)) h = absurd (cc)
  react-deadline s s' now (activity_received true) h = ground arith
  react-deadline s s' now (activity_received false) h = ground arith
  react-deadline s s' now timer_fired h = ground arith
  react-deadline s s' now shutdown_changed h = absurd (cc)

  Passes-deadline :
      {s s' : RelayState} {events : List (ℕ × Event)} (t : ℕ)
      → Passes s events s'
      → s.deadline ≤ t + idle
      → IsFrom t events
      → (s.deadline ≤ s'.deadline) × IsQuietAt s'.deadline events
  Passes-deadline t stays h f = (omega arith, tt)
  Passes-deadline {s} t (turns {s' = m} {now = now} {event = event} e rest) h (le, f) =
      elim (react-deadline s m now event e) [
        | inl (later, active) ↦
            let (up, quiet) = Passes-deadline now rest (omega arith) f in
            (omega arith, (inr (omega arith), quiet))
        | inr (same, passive) ↦
            let (up, quiet) = Passes-deadline now rest (omega arith) f in
            (omega arith, (inl passive, quiet))
      ]

  react-timer :
      (s : RelayState) (now : ℕ) (end : RelayEnd)
      → react names idle s now timer_fired ≡ ends end
      → (s.deadline ≤ now) × (end.result ≡ err (anyhow (codes "idle timeout")))
  unfolding react
  react-timer s now end h = ground arith

  IsFrom-before :
      (t : ℕ) (before after : List (ℕ × Event)) → IsFrom t (before ++ after) → IsFrom t before
  IsFrom-before t [] after f = tt
  IsFrom-before t ((now, event) ∷ before) after (le, f) = (le, IsFrom-before now before after f)

  IsQuietAt-mono :
      (d d' : ℕ) (events : List (ℕ × Event)) → d ≤ d' → IsQuietAt d events → IsQuietAt d' events
  IsQuietAt-mono d d' [] h q = tt
  IsQuietAt-mono d d' ((now, event) ∷ events) h (inl q, rest) =
      (inl q, IsQuietAt-mono d d' events h rest)
  IsQuietAt-mono d d' ((now, event) ∷ events) h (inr q, rest) =
      (inr (omega arith), IsQuietAt-mono d d' events h rest)

  -- When the timer ends a relay, with events at times that do not go back, the idle time has passed
  -- since the relay started and since each activity that it received, and it reports an idle timeout.
  pub relay_idle :
      (t : ℕ) (events : List (ℕ × Event)) (end : RelayEnd)
      → IsFrom t events
      → (by : EndedBy (start idle t) events end) → by.event ≡ timer_fired
      → (t + idle ≤ by.now)
        × IsQuietAt by.now by.before
        × (end.result ≡ err (anyhow (codes "idle timeout")))
  relay_idle t events end f by e =
      let (due, reported) =
        react-timer by.state by.now end
          (subst (λ x. react names idle by.state by.now x ≡ ends end) e by.last) in
      let (up, quiet) =
        Passes-deadline t by.survives (omega arith)
          (IsFrom-before t by.before _ (subst (IsFrom t) by.split f)) in
      (omega arith, IsQuietAt-mono by.state.deadline by.now by.before due quiet, reported)
