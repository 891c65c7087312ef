-- ===== src/Tunnel/Pair/Way.antt =====
-- One direction of a tunnel while both of its sides run: from the task that seals on the one side,
-- over the network, to the task that opens on the other.
use secure_tunnel.Prelude.{
  ℕ, ◌+◌, ◌≤◌, ◌≡◌, ◌⊎◌, inl, inr, sym, ap, ◌∙◌, List, [], ◌∷◌, ◌++◌, append_assoc, append-nil,
  Bool, true, false, length, take, drop, drop-add, length-drop, take-append-drop-length, concat,
  All, Bytes, ok, err, arith,
}
use secure_tunnel.Protocol.Noise.{Noise}
use secure_tunnel.Protocol.Session.Channel.{frame_of}
use secure_tunnel.Protocol.Session.Duplex.{Record, Cipher}
use secure_tunnel.Protocol.Session.Duplex.Steps.{frames, plains, Fits}
use secure_tunnel.Tunnel.Io.{Ending, ended, broken, silent, Input}
use secure_tunnel.Tunnel.Relay.{returned, panicked}
use secure_tunnel.Tunnel.Relay.Tasks.{Progress, runs, finished, aborted, is_running}

-- The task has returned without an error.
abbrev pub ended_well : Progress → Bool
ended_well runs = false
ended_well (finished (returned (ok u))) = true
ended_well (finished (returned (err e))) = false
ended_well (finished (panicked text)) = false
ended_well aborted = false

-- The task has ended, but not well.
abbrev pub IsCut : Progress → Type 0
IsCut p = (is_running p ≡ false) × (ended_well p ≡ false)

-- A stream ends only when nothing is in flight and its writer has stopped.
abbrev pub EndsAfter : Ending → Bytes → Progress → Type 0
EndsAfter silent flying sealing = Unit {0}
EndsAfter (broken text) flying sealing = Unit {0}
EndsAfter (ended text) flying sealing = (flying ≡ []) × (is_running sealing ≡ false)

-- Taking a piece of what is in flight.
pub carry_piece :
    (c n : ℕ) (xs : Bytes)
    → c ≤ length xs
    → let piece = take n (drop c xs) in
      (piece ++ drop (c + length piece) xs ≡ drop c xs) × (c + length piece ≤ length xs)
carry_piece c n xs h =
    let (same, le) = take-append-drop-length n (drop c xs) in
    (rw (drop-add c (length (take n (drop c xs))) xs) same, omega (arith, le, length-drop c xs h))

module _ (N : Noise) (C : Cipher N) where
  open N use {TransportState}

  -- What is in the stream, in flight, and missing because the writer failed, is the frames of the queue.
  pub record Live (written : Bytes) (carried : ℕ) (sealing : Progress) (i : Input)
      (opening : Progress) (queue : List (Record N)) : Type 0 where
    pub missing : Bytes
    pub on_wire : (i.bytes ++ drop carried written) ++ missing ≡ concat (frames N C queue)
    pub whole : (missing ≡ []) ⊎ IsCut sealing
    pub within : carried ≤ length written
    pub closing : EndsAfter i.ending (drop carried written) sealing
    pub unended : ended_well opening ≡ false

  -- The task that opens has ended; if it ended well, so had the other, and what that one read has all
  -- been written, unless it had failed.
  abbrev pub IsOver : Bytes → Progress → Bytes → Progress → Type 0
  IsOver source sealing sunk opening =
      (is_running opening ≡ false)
      × ((ended_well opening ≡ false)
          ⊎ ((is_running sealing ≡ false) × ((source ≡ sunk) ⊎ (ended_well sealing ≡ false))))

  pub record Way (n : ℕ) (source written : Bytes) (carried : ℕ) (sealing : Progress) (i : Input)
      (sunk : Bytes) (opening : Progress) (a b : TransportState) : Type 0 where
    pub queue : List (Record N)
    pub flight : C.Flight n a queue b
    pub fits : All (Fits N C) queue
    pub lost : Bytes
    pub total : source ≡ sunk ++ (lost ++ concat (plains N C queue))
    pub state :
        ((lost ≡ []) × Live written carried sealing i opening queue)
        ⊎ IsOver source sealing sunk opening

  pub plains-snoc :
      (q : List (Record N)) (r : Record N)
      → concat (plains N C (q ++ (r ∷ []))) ≡ concat (plains N C q) ++ r.0
  plains-snoc [] r = append-nil r.0
  plains-snoc (x ∷ q) r =
      ap (λ t. x.0 ++ t) (plains-snoc q r) ∙ sym (append_assoc x.0 (concat (plains N C q)) r.0)

  pub frames-snoc :
      (q : List (Record N)) (r : Record N)
      → concat (frames N C (q ++ (r ∷ []))) ≡ concat (frames N C q) ++ frame_of N r.1
  frames-snoc [] r = append-nil (frame_of N r.1)
  frames-snoc (x ∷ q) r =
      ap (λ t. frame_of N x.1 ++ t) (frames-snoc q r)
      ∙ sym (append_assoc (frame_of N x.1) (concat (frames N C q)) (frame_of N r.1))

  module _ {n : ℕ} {source written : Bytes} {carried : ℕ} {sealing : Progress} {i : Input}
      {sunk : Bytes} {opening : Progress} {a b : TransportState} where
    -- The other direction moves.
    pub Way-aside :
        (w : Way n source written carried sealing i sunk opening a b)
        → {m : ℕ} {a' b' : TransportState} → C.Flight m a' w.queue b'
        → Way m source written carried sealing i sunk opening a' b'
    Way-aside w flight = record {
      queue = w.queue;
      flight = flight;
      fits = w.fits;
      lost = w.lost;
      total = w.total;
      state = w.state;
    }

    -- The task that seals stops without having read or written more.
    pub Way-stops :
        (sealing' : Progress)
        → is_running sealing ≡ true
        → Way n source written carried sealing i sunk opening a b
        → Way n source written carried sealing' i sunk opening a b
    Way-stops sealing' running w = record {
      queue = w.queue;
      flight = w.flight;
      fits = w.fits;
      lost = w.lost;
      total = w.total;
      state = after w.state;
    }
      where
        closing' :
            (e : Ending)
            → EndsAfter e (drop carried written) sealing
            → EndsAfter e (drop carried written) sealing'
        closing' silent h = tt
        closing' (broken text) h = tt
        closing' (ended text) h = absurd (cc)

        after :
            ((w.lost ≡ []) × Live written carried sealing i opening w.queue)
              ⊎ IsOver source sealing sunk opening
            → ((w.lost ≡ []) × Live written carried sealing' i opening w.queue)
              ⊎ IsOver source sealing' sunk opening
        after (inl (none_lost, l)) = inl (
          none_lost,
          record {
            missing = l.missing;
            on_wire = l.on_wire;
            whole = inl (elim l.whole [ inl e ↦ e | inr cut ↦ absurd (cc) ]);
            within = l.within;
            closing = closing' i.ending l.closing;
            unended = l.unended;
          },
        )
        after (inr (stopped, inl bad)) = inr (stopped, inl bad)
        after (inr (stopped, inr (idle, x))) = absurd (cc)

    -- The task that opens is stopped.
    pub Way-closes :
        (opening' : Progress)
        → is_running opening ≡ true
        → ended_well opening' ≡ false
        → Way n source written carried sealing i sunk opening a b
        → Way n source written carried sealing i sunk opening' a b
    Way-closes opening' running bad w = record {
      queue = w.queue;
      flight = w.flight;
      fits = w.fits;
      lost = w.lost;
      total = w.total;
      state = elim w.state [
        | inr (stopped, x) ↦ absurd (cc)
        | inl (none_lost, l) ↦ inl (
          none_lost,
          record {
            missing = l.missing;
            on_wire = l.on_wire;
            whole = l.whole;
            within = l.within;
            closing = l.closing;
            unended = bad;
          },
        )
      ];
    }

    -- The stream changes, and with it what is in flight.
    pub Way-carries :
        (i' : Input) (carried' : ℕ)
        → ((carried ≤ length written)
            → (i'.bytes ++ drop carried' written ≡ i.bytes ++ drop carried written)
              × (carried' ≤ length written))
        → (EndsAfter i.ending (drop carried written) sealing
            → EndsAfter i'.ending (drop carried' written) sealing)
        → Way n source written carried sealing i sunk opening a b
        → Way n source written carried' sealing i' sunk opening a b
    Way-carries i' carried' moves closes w = record {
      queue = w.queue;
      flight = w.flight;
      fits = w.fits;
      lost = w.lost;
      total = w.total;
      state = elim w.state [
        | inr x ↦ inr x
        | inl (none_lost, l) ↦
            let (same, le) = moves l.within in
            inl (
              none_lost,
              record {
                missing = l.missing;
                on_wire = ap (λ t. t ++ l.missing) same ∙ l.on_wire;
                whole = l.whole;
                within = le;
                closing = closes l.closing;
                unended = l.unended;
              },
            )
      ];
    }
