-- ===== src/Tunnel/Frames/Wire.antt =====
-- The frame readers against the decoders: what is on the wire is what is read.
use secure_tunnel.Prelude.{
  ℕ, ◌≤◌, ◌<◌, ◌≢◌, get_or, Result-cases, err, inr, Option, none, ◌≡◌, refl, ◌∙◌, ap, ◌↔◌, inl, inr,
  [], ◌∷◌, ◌++◌, some, none, false, Bool-cases, leb, ltb, ◌==◌, ◌||◌, length, length-append,
  length-take, length-drop-le, take, take-append_length, drop-append_length, take-append-drop, All,
  Bytes, IsByte, Text, ok, arith,
}
use secure_tunnel.Protocol.Error.{max_ciphertext_record}
use secure_tunnel.Protocol.Frame.{u32_to_be_bytes, u32_from_be_bytes, decode_record_frame}
use secure_tunnel.Protocol.Frame.RoundTrip.{decode_record_complete}
use secure_tunnel.Tunnel.Io.{
  stop, exhausted, Ending, ended, broken, silent, Input, read_exact, read_byte,
}
use secure_tunnel.Tunnel.Frames.{read_record_from, read_record_frame}

abbrev pub input : Bytes → Ending → Input
input bytes ending = record { bytes = bytes; ending = ending }

pub read_exact-append :
    (n : ℕ) (xs rest : Bytes) (ending : Ending)
    → length xs ≡ n
    → read_exact n (input (xs ++ rest) ending) ≡ (ok xs, input rest ending)
unfolding read_exact
read_exact-append n xs rest ending e =
    ground
      (arith, length-append xs rest, take-append_length n xs rest e, drop-append_length n xs rest e)

legal_length :
    (n : ℕ) → 1 ≤ n → n ≤ max_ciphertext_record → (n == 0 || ltb max_ciphertext_record n) ≡ false
legal_length n pos small = ground arith

-- The last step of `read_record_from`, once the header has been read.
read_body :
    (a b c d : ℕ) (body rest : Bytes) (ending : Ending)
    → u32_from_be_bytes a b c d ≡ length body
    → 1 ≤ length body
    → length body ≤ max_ciphertext_record
    → read_record_frame (input (a ∷ b ∷ c ∷ d ∷ (body ++ rest)) ending)
      ≡ (ok (some (a ∷ b ∷ c ∷ d ∷ body)), input rest ending)
unfolding read_record_frame read_byte
read_body a b c d body rest ending e pos small =
    rw (read_exact-append 3 (b ∷ c ∷ d ∷ []) (body ++ rest) ending refl) (
      rw (e, legal_length (length body) pos small)
        (rw (read_exact-append (length body) body rest ending refl)))

-- From a stream that starts with a framed ciphertext of 1 to 16400 bytes the reader takes that frame
-- and nothing of what follows it, and the frame decodes to the ciphertext.
pub read_record_frame-encoded :
    (ciphertext rest : Bytes) (ending : Ending) (S : Type 0)
    → 1 ≤ length ciphertext
    → length ciphertext ≤ max_ciphertext_record
    → (read_record_frame
          (input (u32_to_be_bytes (length ciphertext) ++ (ciphertext ++ rest)) ending)
        ≡ (ok (some (u32_to_be_bytes (length ciphertext) ++ ciphertext)), input rest ending))
      × (decode_record_frame {S = S} (u32_to_be_bytes (length ciphertext) ++ ciphertext)
          ≡ ok ciphertext)
read_record_frame-encoded ciphertext rest ending S pos small = (
  read_body _ _ _ _ ciphertext rest ending (omega arith) pos small,
  decode_record_complete ciphertext small,
)

-- What a successful `read_exact` did.
read_exact-ok :
    (n : ℕ) (i : Input) {xs : Bytes}
    → (read_exact n i).0 ≡ ok xs
    → (length xs ≡ n) × (i.bytes ≡ xs ++ (read_exact n i).1.bytes)
unfolding read_exact
read_exact-ok n i h = elim (Bool-cases (leb n (length i.bytes))) [
  | inl enough ↦ ground (arith, take-append-drop n i.bytes, length-take n i.bytes)
  | inr short ↦ absurd (ground arith)
]

-- The reader reports the end of the stream exactly when the stream ends before the first byte of a
-- record: a record that is cut short is never taken for an orderly end.
pub read_record_frame-none_iff :
    (bytes : Bytes) (text : Text)
    → ((read_record_frame (input bytes (ended text))).0 ≡ ok none) ↔ (bytes ≡ [])
unfolding read_record_frame read_byte
read_record_frame-none_iff [] text = (λ e. refl, λ e. refl)
read_record_frame-none_iff (b ∷ bytes) text = (λ e. absurd (ground arith), λ e. absurd (cc))

abbrev pub IsRecordOf : Bytes → Bytes → Bytes → Type 0
IsRecordOf bytes frame rest =
    (ciphertext : Bytes) × (bytes ≡ frame ++ rest)
    × (frame ≡ u32_to_be_bytes (length ciphertext) ++ ciphertext)
    × (1 ≤ length ciphertext)
    × (length ciphertext ≤ max_ciphertext_record)

-- A whole header: the body has the length that it announces.
whole_header :
    (a b c d : ℕ) (bytes : Bytes) (ending : Ending) (frame : Bytes)
    → All IsByte (a ∷ b ∷ c ∷ d ∷ [])
    → (read_record_frame (input (a ∷ b ∷ c ∷ d ∷ bytes) ending)).0 ≡ ok (some frame)
    → IsRecordOf
        (a ∷ b ∷ c ∷ d ∷ bytes)
        frame
        (read_record_frame (input (a ∷ b ∷ c ∷ d ∷ bytes) ending)).1.bytes
unfolding read_record_frame read_byte read_exact
whole_header a b c d bytes ending frame small h =
    let n = u32_from_be_bytes a b c d in
    elim (Bool-cases (leb n (length bytes))) [
      | inl enough ↦
          let sized = length-take n bytes (ground arith) in
          (
            take n bytes,
            ground (arith, take-append-drop n bytes),
            ground (arith, sized),
            ground (arith, sized),
            ground (arith, sized),
          )
      | inr short ↦ absurd (ground arith)
    ]

record_sound :
    (bytes : Bytes) (ending : Ending) (frame : Bytes)
    → All IsByte bytes
    → (read_record_frame (input bytes ending)).0 ≡ ok (some frame)
    → IsRecordOf bytes frame (read_record_frame (input bytes ending)).1.bytes
unfolding read_record_frame read_byte read_exact
record_sound [] (ended text) frame small h = cc
record_sound [] (broken text) frame small h = cc
record_sound [] silent frame small h = cc
record_sound (a ∷ []) ending frame small h = absurd (ground arith)
record_sound (a ∷ b ∷ []) ending frame small h = absurd (ground arith)
record_sound (a ∷ b ∷ c ∷ []) ending frame small h = absurd (ground arith)
record_sound (a ∷ b ∷ c ∷ d ∷ bytes) ending frame small h =
    whole_header a b c d bytes ending frame
      (small.0, (small.1.0, (small.1.1.0, (small.1.1.1.0, tt)))) h

-- Whatever record the reader returns was the start of the stream, has a body of 1 to 16400 bytes
-- behind its length, and what follows it is left in the stream; the decoder accepts it.
pub read_record_frame_sound :
    (bytes : Bytes) (ending : Ending) (frame : Bytes) (S : Type 0)
    → All IsByte bytes
    → (read_record_frame (input bytes ending)).0 ≡ ok (some frame)
    → (r : IsRecordOf bytes frame (read_record_frame (input bytes ending)).1.bytes)
      × (decode_record_frame {S = S} frame ≡ ok r.0)
read_record_frame_sound bytes ending frame S small h =
    let r = record_sound bytes ending frame small h in
    (r, ap decode_record_frame r.2 ∙ decode_record_complete r.0 r.4)

pub read_record_frame-end :
    (text : Text) → read_record_frame (input [] (ended text)) ≡ (ok none, input [] (ended text))
unfolding read_record_frame read_byte
read_record_frame-end text = refl

read_exact-shrinks : (n : ℕ) (i : Input) → length (read_exact n i).1.bytes ≤ length i.bytes
unfolding read_exact
read_exact-shrinks n i = ground (arith, length-drop-le n i.bytes)

read_record_from-shrinks :
    (first : Option ℕ) (i : Input) → length (read_record_from first i).1.bytes ≤ length i.bytes
unfolding read_record_from
read_record_from-shrinks none i = omega arith
read_record_from-shrinks (some first) i = elim (Result-cases (read_exact 3 i).0) [
  | inr (e, failed) ↦ ground (arith, read_exact-shrinks 3 i)
  | inl (header, got) ↦ ground (
    arith,
    read_exact-shrinks 3 i,
    read_exact-shrinks
        (u32_from_be_bytes first (get_or header 0 0) (get_or header 1 0) (get_or header 2 0))
        (read_exact 3 i).1,
  )
]

stop-ne-exhausted : (ending : Ending) → stop ending ≢ exhausted
stop-ne-exhausted (ended text) = λ e. cc
stop-ne-exhausted (broken text) = λ e. cc
stop-ne-exhausted silent = λ e. cc

read_exact-ne-exhausted : (n : ℕ) (i : Input) → (read_exact n i).0 ≢ err exhausted
unfolding read_exact
read_exact-ne-exhausted n i = ground (arith, stop-ne-exhausted i.ending)

read_record_from-ne-exhausted :
    (first : Option ℕ) (i : Input) → (read_record_from first i).0 ≢ err exhausted
unfolding read_record_from
read_record_from-ne-exhausted none i = λ e. cc
read_record_from-ne-exhausted (some first) i = elim (Result-cases (read_exact 3 i).0) [
  | inr (e, failed) ↦ ground (arith, read_exact-ne-exhausted 3 i)
  | inl (header, got) ↦ ground (
    arith,
    read_exact-ne-exhausted
        (u32_from_be_bytes first (get_or header 0 0) (get_or header 1 0) (get_or header 2 0))
        (read_exact 3 i).1,
  )
]

pub read_record_frame-ne-exhausted :
    (bytes : Bytes) (ending : Ending) → (read_record_frame (input bytes ending)).0 ≢ err exhausted
unfolding read_record_frame read_byte
read_record_frame-ne-exhausted [] (ended text) = λ e. cc
read_record_frame-ne-exhausted [] (broken text) = λ e. cc
read_record_frame-ne-exhausted [] silent = λ e. cc
read_record_frame-ne-exhausted (b ∷ bytes) ending =
    read_record_from-ne-exhausted (some b) (input bytes ending)

-- A record that is returned has been taken from the stream.
pub read_record_frame-shrinks :
    (bytes : Bytes) (ending : Ending) (frame : Bytes)
    → (read_record_frame (input bytes ending)).0 ≡ ok (some frame)
    → length (read_record_frame (input bytes ending)).1.bytes < length bytes
unfolding read_record_frame read_byte
read_record_frame-shrinks [] (ended text) frame h = cc
read_record_frame-shrinks [] (broken text) frame h = cc
read_record_frame-shrinks [] silent frame h = cc
read_record_frame-shrinks (b ∷ bytes) ending frame h =
    omega (arith, read_record_from-shrinks (some b) (input bytes ending))
