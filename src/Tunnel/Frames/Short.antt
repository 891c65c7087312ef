-- ===== src/Tunnel/Frames/Short.antt =====
-- `read_record_frame` on a stream of records of which only a part has arrived.
use secure_tunnel.Prelude.{
  ℕ, ◌≤◌, ◌<◌, ◌≡◌, refl, sym, ap, subst, ◌∙◌, ◌/◌, ◌%◌, ◌⊎◌, inl, inr, List, [], ◌∷◌, ◌++◌, none,
  length, length-append, Bytes, Text, Result, ok, err, Option, arith,
}
use secure_tunnel.Protocol.Error.{max_ciphertext_record}
use secure_tunnel.Protocol.Frame.{u32_to_be_bytes, u32_from_be_bytes}
use secure_tunnel.Tunnel.Io.{
  Stop, failed, waiting, stop, Ending, ended, broken, silent, Input, read_exact, read_byte,
}
use secure_tunnel.Tunnel.Frames.{read_record_from, read_record_frame}
use secure_tunnel.Tunnel.Frames.Wire.{input}

-- Of two cuts of the same list, one is not before the other.
pub append-overlap {ℓ} :
    {A : Type ℓ} (xs more front rest : List A)
    → xs ++ more ≡ front ++ rest
    → ((ys : List A) × (xs ≡ front ++ ys) × (ys ++ more ≡ rest))
      ⊎ ((y : A) × (ys : List A) × (front ≡ xs ++ (y ∷ ys)))
append-overlap xs more [] rest e = inl (xs, refl, e)
append-overlap [] more (y ∷ front) rest e = inr (y, front, refl)
append-overlap (x ∷ xs) more (y ∷ front) rest e = elim (append-overlap xs more front rest (cc)) [
  | inl (ys, split, same) ↦ inl (ys, cc, same)
  | inr (z, ys, split) ↦ inr (z, ys, cc)
]

-- A read that returns no record waits, fails, or has met the end of the stream with nothing left.
pub data NoRecord : Input → Result Stop (Option Bytes) → Type 0 where
  waits : {i : Input} → NoRecord i (err waiting)
  fails : {i : Input} {e : _} → NoRecord i (err (failed e))
  at_end : {text : Text} → NoRecord (input [] (ended text)) (ok none)

stop-NoRecord : (i : Input) (ending : Ending) → NoRecord i (err (stop ending))
stop-NoRecord i (ended text) = fails
stop-NoRecord i (broken text) = fails
stop-NoRecord i silent = waits

-- A header without its whole body.
short_body :
    (a b c d n : ℕ) (bytes : Bytes) (ending : Ending)
    → u32_from_be_bytes a b c d ≡ n
    → 1 ≤ n
    → n ≤ max_ciphertext_record
    → length bytes < n
    → (read_record_frame (input (a ∷ b ∷ c ∷ d ∷ bytes) ending)).0 ≡ err (stop ending)
unfolding read_record_frame read_byte read_exact read_record_from
short_body a b c d n bytes ending e pos small short = ground arith

pub read_record_frame-nothing :
    (ending : Ending) → NoRecord (input [] ending) (read_record_frame (input [] ending)).0
unfolding read_record_frame read_byte
read_record_frame-nothing (ended text) = at_end
read_record_frame-nothing (broken text) = fails
read_record_frame-nothing silent = waits

pub read_record_frame-short :
    (bytes ciphertext rest : Bytes) (y : ℕ) (ending : Ending)
    → u32_to_be_bytes (length ciphertext) ++ ciphertext ≡ bytes ++ (y ∷ rest)
    → 1 ≤ length ciphertext
    → length ciphertext ≤ max_ciphertext_record
    → NoRecord (input bytes ending) (read_record_frame (input bytes ending)).0
unfolding read_record_frame read_byte read_exact
read_record_frame-short [] ciphertext rest y ending e pos small = read_record_frame-nothing ending
read_record_frame-short (a ∷ []) ciphertext rest y ending e pos small = stop-NoRecord _ ending
read_record_frame-short (a ∷ b ∷ []) ciphertext rest y ending e pos small = stop-NoRecord _ ending
read_record_frame-short (a ∷ b ∷ c ∷ []) ciphertext rest y ending e pos small =
    stop-NoRecord _ ending
read_record_frame-short (a ∷ b ∷ c ∷ d ∷ bytes) ciphertext rest y ending e pos small =
    let e0 : length ciphertext / 16777216 % 256 ≡ a = cc in
    let e1 : length ciphertext / 65536 % 256 ≡ b = cc in
    let e2 : length ciphertext / 256 % 256 ≡ c = cc in
    let e3 : length ciphertext % 256 ≡ d = cc in
    let body : ciphertext ≡ bytes ++ (y ∷ rest) = cc in
    let sized = ap length body ∙ length-append bytes (y ∷ rest) in
    subst (NoRecord (input (a ∷ b ∷ c ∷ d ∷ bytes) ending))
      (sym
        (short_body a b c d (length ciphertext) bytes ending (omega arith) pos small (omega arith)))
      (stop-NoRecord _ ending)
