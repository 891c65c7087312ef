-- ===== src/Tunnel/Pair/Moving.antt =====
-- Every move of a side, and every step of the network, within the two directions of a tunnel.
use secure_tunnel.Prelude.{
  ℕ, ◌+◌, ◌≡◌, ◌⊎◌, inl, inr, refl, ap, ◌∙◌, [], ◌∷◌, ◌++◌, append_assoc, Option, none, some, Bool,
  true, false, is_empty, take, drop, Bytes, Text, arith,
}
use native.Mathlib.Nat.{add-zero}
use secure_tunnel.Protocol.Noise.{Noise}
use secure_tunnel.Protocol.Session.{TransportSession}
use secure_tunnel.Protocol.Session.Duplex.{Cipher}
use secure_tunnel.Tunnel.Io.{Ending, ended, broken, silent}
use secure_tunnel.Tunnel.Frames.Wire.{input}
use secure_tunnel.Tunnel.Relay.{Event, RelayState, Reaction, goes_on, ends}
use secure_tunnel.Tunnel.Relay.Tasks.{
  Role, Progress, runs, finished, aborted, is_running, Watch, loops, over, Branch, Move, reads,
  opens, sealing_panics, opening_panics, turns, abort_if, Running, reacts, turn_with, turn, move,
  panic,
}
use secure_tunnel.Tunnel.Pair.{arrives, arrived, closed_with, ends_if}
use secure_tunnel.Tunnel.Pair.Counting.{reading_calls}
use secure_tunnel.Tunnel.Pair.Way.{
  ended_well, EndsAfter, Way, Way-stops, Way-closes, Way-carries, carry_piece,
}
use secure_tunnel.Tunnel.Pair.Sealing.{Joined, IsSmallRead, fewer, seal_move-Joined}
use secure_tunnel.Tunnel.Pair.Opening.{open_move-Joined}

-- A task stays as it is, or it ran and was stopped.
abbrev pub Stops : Progress → Progress → Type 0
Stops p p' = (p' ≡ p) ⊎ ((is_running p ≡ true) × (ended_well p' ≡ false))

abort_if-Stops : (b : Bool) (p : Progress) → Stops p (abort_if b p)
abort_if-Stops false p = inl refl
abort_if-Stops true runs = inr (refl, refl)
abort_if-Stops true (finished j) = inl refl
abort_if-Stops true aborted = inl refl

panic-Stops : (text : Text) (p : Progress) → Stops p (panic text p)
panic-Stops text runs = inr (refl, refl)
panic-Stops text (finished j) = inl refl
panic-Stops text aborted = inl refl

module _ (N : Noise) (C : Cipher N) where
  open N use {TransportState}

  abbrev pub IsSmallMove : Move → Type 0
  IsSmallMove (reads result) = IsSmallRead N C result
  IsSmallMove opens = Unit {0}
  IsSmallMove (sealing_panics text) = Unit {0}
  IsSmallMove (opening_panics text) = Unit {0}
  IsSmallMove (turns now branch) = Unit {0}

  module _ (s : TransportSession) (n m : ℕ) (x : Running N) (c : ℕ) (y : Running N) (c' : ℕ)
      (b : TransportState) where
    Joined-stops :
        (sealing opening : Progress) (activity : Bool) (watch : Watch)
        → Stops x.sealing sealing
        → Stops x.opening opening
        → Joined N C s n m x c y c' b
        → Joined N C s n m
            (record x { sealing = sealing; opening = opening; activity = activity; watch = watch })
            c
            y
            c'
            b
    Joined-stops sealing opening activity watch seals unseals k = record {
      left = k.left;
      enough = k.enough;
      own = k.own;
      holds = k.holds;
      out = elim seals [
        | inl same ↦ rw same k.out
        | inr (running, bad) ↦ Way-stops N C sealing running k.out
      ];
      back = elim unseals [
        | inl same ↦ rw same k.back
        | inr (running, bad) ↦ Way-closes N C opening running bad k.back
      ];
    }

    reacts-Joined :
        (r : Reaction) (activity : Bool)
        → Joined N C s n m x c y c' b
        → Joined N C s n m (reacts N (record x { activity = activity }) r) c y c' b
    reacts-Joined (goes_on state) activity k =
        Joined-stops x.sealing x.opening activity (loops state) (inl refl) (inl refl) k
    reacts-Joined (ends end) activity k =
        Joined-stops (abort_if end.aborted x.sealing) (abort_if end.aborted x.opening) activity
          (over end) (abort_if-Stops end.aborted x.sealing) (abort_if-Stops end.aborted x.opening) k

    turn_with-Joined :
        (role : Role) (idle now : ℕ) (state : RelayState) (event : Option Event)
        → Joined N C s n m x c y c' b
        → Joined N C s n m (turn_with N role idle state now event x) c y c' b
    turn_with-Joined role idle now state none k = k
    turn_with-Joined role idle now state (some event) k = reacts-Joined _ _ k

    turn-Joined :
        (role : Role) (idle now : ℕ) (branch : Branch) (watch : Watch)
        → Joined N C s n m x c y c' b
        → Joined N C s n m (turn N role idle now branch watch x) c y c' b
    unfolding turn
    turn-Joined role idle now branch (loops state) k = turn_with-Joined role idle now state _ k
    turn-Joined role idle now branch (over end) k = k

  -- Whatever a side does next.
  pub move-Joined :
      (role : Role) (s : TransportSession) (n m idle : ℕ) (next : Move) (x : Running N) (c : ℕ)
      (y : Running N) (c' : ℕ) (b : TransportState)
      → IsSmallMove next
      → Joined N C s (reading_calls next + n) m x c y c' b
      → Joined N C s n m (move N role s idle next x) c y c' b
  unfolding move
  move-Joined role s n m idle (reads result) x c y c' b small k =
      seal_move-Joined N C role s n m result x.sealing x c y c' b refl small
        (fewer N C (omega arith) k)
  move-Joined role s n m idle opens x c y c' b small k =
      open_move-Joined N C role s n m x.opening x c y c' b refl (fewer N C (omega arith) k)
  move-Joined role s n m idle (sealing_panics text) x c y c' b small k =
      Joined-stops s n m x c y c' b (panic text x.sealing) x.opening x.activity x.watch
        (panic-Stops text x.sealing) (inl refl) (fewer N C (omega arith) k)
  move-Joined role s n m idle (opening_panics text) x c y c' b small k =
      Joined-stops s n m x c y c' b x.sealing (panic text x.opening) x.activity x.watch (inl refl)
        (panic-Stops text x.opening) (fewer N C (omega arith) k)
  move-Joined role s n m idle (turns now branch) x c y c' b small k =
      turn-Joined s n m x c y c' b role idle now branch x.watch (fewer N C (omega arith) k)

  module _ {n : ℕ} {source written : Bytes} {carried : ℕ} {sealing : Progress} {sunk : Bytes}
      {opening : Progress} {a b : TransportState} where
    -- The network carries a piece, ends the stream or breaks it.
    pub carries-Way :
        (size : ℕ) (bytes : Bytes) (ending : Ending)
        → Way N C n source written carried sealing (input bytes ending) sunk opening a b
        → let piece = take size (drop carried written) in
          Way N C n source written
            (carried + arrived piece ending)
            sealing
            (arrives piece ending (input bytes ending))
            sunk
            opening
            a
            b
    carries-Way size bytes silent w =
        Way-carries N C _ _
          (λ within.
            let (same, le) = carry_piece carried size written within in
            (append_assoc bytes _ _ ∙ ap (λ t. bytes ++ t) same, le))
          (λ u. tt) w
    carries-Way size bytes (ended text) w = rw (add-zero) w
    carries-Way size bytes (broken text) w = rw (add-zero) w

    closed-Way :
        (ending' : Ending) (bytes : Bytes) (ending : Ending)
        → EndsAfter ending' (drop carried written) sealing
        → Way N C n source written carried sealing (input bytes ending) sunk opening a b
        → Way N C n source written carried sealing
            (closed_with ending' ending (input bytes ending))
            sunk
            opening
            a
            b
    closed-Way ending' bytes silent after w =
        Way-carries N C _ _ (λ within. (refl, within)) (λ u. after) w
    closed-Way ending' bytes (ended text) after w = w
    closed-Way ending' bytes (broken text) after w = w

    pub breaks-Way :
        (text : Text) (bytes : Bytes) (ending : Ending)
        → Way N C n source written carried sealing (input bytes ending) sunk opening a b
        → Way N C n source written carried sealing
            (closed_with (broken text) ending (input bytes ending))
            sunk
            opening
            a
            b
    breaks-Way text bytes ending w = closed-Way (broken text) bytes ending tt w

    ends_if-Way :
        (text : Text) (running empty : Bool) (bytes : Bytes) (ending : Ending)
        → is_running sealing ≡ running
        → is_empty (drop carried written) ≡ empty
        → Way N C n source written carried sealing (input bytes ending) sunk opening a b
        → Way N C n source written carried sealing
            (ends_if running empty text (input bytes ending))
            sunk
            opening
            a
            b
    ends_if-Way text true empty bytes ending e e' w = w
    ends_if-Way text false false bytes ending e e' w = w
    ends_if-Way text false true bytes ending e e' w =
        closed-Way (ended text) bytes ending (is_empty-nil _ e', e) w
      where
        is_empty-nil : (xs : Bytes) → is_empty xs ≡ true → xs ≡ []
        is_empty-nil [] h = refl
        is_empty-nil (x ∷ xs) h = absurd (cc)

    pub ends-Way :
        (text : Text) (bytes : Bytes) (ending : Ending)
        → Way N C n source written carried sealing (input bytes ending) sunk opening a b
        → Way N C n source written carried sealing
            (ends_if
              (is_running sealing)
              (is_empty (drop carried written))
              text
              (input bytes ending))
            sunk
            opening
            a
            b
    ends-Way text bytes ending w = ends_if-Way text _ _ bytes ending refl refl w
