-- ===== src/Tunnel/Pair/Records.antt =====
-- A record enters a direction of a tunnel, and leaves it.
use secure_tunnel.Prelude.{
  ℕ, suc, ◌≡◌, ◌⊎◌, inl, inr, refl, sym, ap, subst, ◌∙◌, List, [], ◌∷◌, ◌++◌, append_assoc,
  append-nil, true, false, length, length-append, drop, drop-append, concat, All, Bytes, Text, ok,
  some, arith,
}
use secure_tunnel.Protocol.Frame.{u32_to_be_bytes}
use secure_tunnel.Protocol.Noise.{Noise}
use secure_tunnel.Protocol.Session.Channel.{frame_of}
use secure_tunnel.Protocol.Session.Duplex.{Record, Cipher}
use secure_tunnel.Protocol.Session.Duplex.Steps.{frames, plains, Fits, All-append}
use secure_tunnel.Tunnel.Io.{Ending, ended, broken, silent, Input}
use secure_tunnel.Tunnel.Frames.{read_record_frame}
use secure_tunnel.Tunnel.Frames.Wire.{input, read_record_frame-encoded}
use secure_tunnel.Tunnel.Frames.Short.{
  append-overlap, NoRecord, read_record_frame-nothing, read_record_frame-short,
}
use secure_tunnel.Tunnel.Relay.Tasks.{Progress, is_running}
use secure_tunnel.Tunnel.Pair.Way.{
  ended_well, IsCut, EndsAfter, IsOver, Live, Way, plains-snoc, frames-snoc,
}

module _ (N : Noise) (C : Cipher N) where
  open N use {TransportState}

  -- A chunk was read and sealed, and its frame was put out, or a part of it and an error.
  pub Way-seals :
      {n : ℕ} {source written : Bytes} {carried : ℕ} {sealing : Progress} {i : Input} {sunk : Bytes}
      {opening : Progress} {a b : TransportState} (plaintext ciphertext cut rest : Bytes)
      (sealing' : Progress) {a' : TransportState}
      → (w : Way N C (suc n) source written carried sealing i sunk opening a b)
      → is_running sealing ≡ true
      → C.Flight n a' (w.queue ++ ((plaintext, ciphertext) ∷ [])) b
      → Fits N C (plaintext, ciphertext)
      → frame_of N ciphertext ≡ cut ++ rest
      → (rest ≡ []) ⊎ IsCut sealing'
      → Way N C n (source ++ plaintext) (written ++ cut) carried sealing' i sunk opening a' b
  Way-seals {source = source} {written} {carried} {sealing} {i} {sunk} {opening} plaintext
        ciphertext cut rest sealing' w running flight fits parts whole =
      record {
        queue = w.queue ++ ((plaintext, ciphertext) ∷ []);
        flight = flight;
        fits = All-append N C (Fits N C) w.queue (plaintext, ciphertext) w.fits fits;
        lost = w.lost;
        total = rw (w.total, plains-snoc N C w.queue (plaintext, ciphertext)) (simp append_assoc);
        state = after w.state;
      }
    where
      closing' :
          (e : Ending) (flying : Bytes)
          → EndsAfter e flying sealing
          → EndsAfter e (flying ++ cut) sealing'
      closing' silent flying h = tt
      closing' (broken text) flying h = tt
      closing' (ended text) flying h = absurd (cc)

      longer :
          (missing : Bytes)
          → missing ≡ []
          → (i.bytes ++ drop carried written) ++ missing ≡ concat (frames N C w.queue)
          → (i.bytes ++ (drop carried written ++ cut)) ++ rest
            ≡ concat (frames N C w.queue) ++ frame_of N ciphertext
      longer missing e on_wire = rw (parts, ← on_wire, e) (simp (append_assoc, append-nil))

      after :
          ((w.lost ≡ []) × Live N C written carried sealing i opening w.queue)
            ⊎ IsOver N C source sealing sunk opening
          → ((w.lost ≡ [])
              × Live N C
                  (written ++ cut)
                  carried
                  sealing'
                  i
                  opening
                  (w.queue ++ ((plaintext, ciphertext) ∷ [])))
            ⊎ IsOver N C (source ++ plaintext) sealing' sunk opening
      after (inl (none_lost, l)) =
          let nothing : l.missing ≡ [] = elim l.whole [ inl e ↦ e | inr c ↦ absurd (cc) ] in
          inl (
            none_lost,
            record {
              missing = rest;
              on_wire =
                  rw
                    (
                      drop-append carried written cut l.within,
                      frames-snoc N C w.queue (plaintext, ciphertext),
                    )
                    (longer l.missing nothing l.on_wire);
              whole = whole;
              within = omega (arith, l.within, length-append written cut);
              closing =
                  rw (drop-append carried written cut l.within) (closing' i.ending _ l.closing);
              unended = l.unended;
            },
          )
      after (inr (stopped, inl bad)) = inr (stopped, inl bad)
      after (inr (stopped, inr (idle, x))) = absurd (cc)

  -- What a round of the task that opens gets to read.
  pub data Reading (i : Input) (flying missing : Bytes) (queue : List (Record N)) : Type 0 where
    no_record : NoRecord i (read_record_frame i).0 → Reading i flying missing queue
    next_record :
        (plaintext ciphertext bytes : Bytes) (q : List (Record N))
        → queue ≡ (plaintext, ciphertext) ∷ q
        → read_record_frame i ≡ (ok (some (frame_of N ciphertext)), input bytes i.ending)
        → (bytes ++ flying) ++ missing ≡ concat (frames N C q)
        → Reading i flying missing queue

  nothing_arrived :
      (bytes flying missing : Bytes) (ending : Ending)
      → (bytes ++ flying) ++ missing ≡ []
      → NoRecord (input bytes ending) (read_record_frame (input bytes ending)).0
  nothing_arrived [] flying missing ending e = read_record_frame-nothing ending
  nothing_arrived (x ∷ bytes) flying missing ending e = absurd (cc)

  pub reading :
      (bytes flying missing : Bytes) (ending : Ending) (queue : List (Record N))
      → All (Fits N C) queue
      → (bytes ++ flying) ++ missing ≡ concat (frames N C queue)
      → Reading (input bytes ending) flying missing queue
  reading bytes flying missing ending [] fits on_wire =
      no_record (nothing_arrived bytes flying missing ending on_wire)
  reading bytes flying missing ending ((plaintext, ciphertext) ∷ q) ((small, tagged), fits)
        on_wire =
      elim (append-overlap bytes (flying ++ missing) (frame_of N ciphertext) (concat (frames N C q))
        (sym (append_assoc bytes flying missing) ∙ on_wire)) [
          | inl (ys, split, same) ↦
              next_record plaintext ciphertext ys q refl
                (ap (λ t. read_record_frame (input t ending))
                    (split ∙ append_assoc (u32_to_be_bytes (length ciphertext)) ciphertext ys)
                  ∙ (read_record_frame-encoded ciphertext ys ending N.SnowError
                      (omega (arith, tagged)) (omega (arith, small, tagged))).0)
                (append_assoc ys flying missing ∙ same)
          | inr (y, ys, split) ↦ no_record (
              read_record_frame-short bytes ciphertext ys y ending split (omega (arith, tagged))
                (omega (arith, small, tagged)))
        ]

  -- The next record was opened and its plaintext put out, or a part of it and an error.
  pub Way-opens :
      {n : ℕ} {source written : Bytes} {carried : ℕ} {sealing : Progress} {i : Input} {sunk : Bytes}
      {opening : Progress} {a b : TransportState} (plaintext ciphertext bytes cut rest : Bytes)
      (q : List (Record N)) (opening' : Progress) {b' : TransportState}
      → (w : Way N C n source written carried sealing i sunk opening a b)
      → (l : Live N C written carried sealing i opening w.queue) → w.lost ≡ []
      → w.queue ≡ (plaintext, ciphertext) ∷ q
      → (bytes ++ drop carried written) ++ l.missing ≡ concat (frames N C q)
      → C.Flight n a q b'
      → plaintext ≡ cut ++ rest
      → ((rest ≡ []) × (ended_well opening' ≡ false)) ⊎ IsCut opening'
      → Way N C n source written carried sealing (input bytes i.ending) (sunk ++ cut) opening' a b'
  Way-opens {sunk = sunk} plaintext ciphertext bytes cut rest q opening' w l none_lost next on_wire
        flight parts how =
      record {
        queue = q;
        flight = flight;
        fits = (subst (All (Fits N C)) next w.fits).1;
        lost = rest;
        total = rw (w.total, none_lost, next, parts) (simp append_assoc);
        state = elim how [
          | inr (stopped, bad) ↦ inr (stopped, inl bad)
          | inl (all, bad) ↦ inl (
            all,
            record {
              missing = l.missing;
              on_wire = on_wire;
              whole = l.whole;
              within = l.within;
              closing = l.closing;
              unended = bad;
            },
          )
        ];
      }

  module _ {n : ℕ} {source written : Bytes} {carried : ℕ} {sealing : Progress} {i : Input}
      {sunk : Bytes} {opening : Progress} {a b : TransportState} where
    -- The task that opens fails.
    pub Way-fails :
        (i' : Input) (opening' : Progress)
        → IsCut opening'
        → Way N C n source written carried sealing i sunk opening a b
        → Way N C n source written carried sealing i' sunk opening' a b
    Way-fails i' opening' (stopped, bad) w = record {
      queue = w.queue;
      flight = w.flight;
      fits = w.fits;
      lost = w.lost;
      total = w.total;
      state = inr (stopped, inl bad);
    }

  no_frames :
      (queue : List (Record N)) → [] ≡ concat (frames N C queue) → concat (plains N C queue) ≡ []
  no_frames [] e = refl
  no_frames (r ∷ q) e = absurd (cc)

  -- The task that opens meets the end of the stream.
  pub Way-ends :
      {n : ℕ} {source written : Bytes} {carried : ℕ} {sealing : Progress} {i : Input} {sunk : Bytes}
      {opening : Progress} {a b : TransportState} (text : Text) (i' : Input) (opening' : Progress)
      → is_running opening' ≡ false
      → (w : Way N C n source written carried sealing i sunk opening a b)
      → (l : Live N C written carried sealing i opening w.queue) → w.lost ≡ []
      → i.bytes ≡ []
      → i.ending ≡ ended text
      → Way N C n source written carried sealing i' sunk opening' a b
  Way-ends {source = source} {written} {carried} {sealing} {i} {sunk} text i' opening' stopped w l
        none_lost empty at_end =
      record {
        queue = w.queue;
        flight = w.flight;
        fits = w.fits;
        lost = w.lost;
        total = w.total;
        state = inr (stopped, inr (closed.1, ended_as l.whole));
      }
    where
      closed : (drop carried written ≡ []) × (is_running sealing ≡ false)
      closed = rw at_end at l.closing

      ended_as : (l.missing ≡ []) ⊎ IsCut sealing → (source ≡ sunk) ⊎ (ended_well sealing ≡ false)
      ended_as (inl nothing) =
          let none_left = no_frames w.queue (rw (empty, closed.0, nothing) at l.on_wire) in
          inl (rw (w.total, none_lost, none_left) (append-nil sunk))
      ended_as (inr (idle, bad)) = inr bad
