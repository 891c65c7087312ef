-- ===== src/Examples/Duplex.antt =====
-- Both directions of a session over the instance of Ik.
use secure_tunnel.Prelude.{
  ℕ, ◌+◌, ◌≡◌, refl, ap, ◌++◌, List, [], ◌∷◌, subst, length, length-append, Bytes, arith,
}
use secure_tunnel.Protocol.Session.{TransportSession, Heap}
use secure_tunnel.Protocol.Session.Channel.{holding}
use secure_tunnel.Protocol.Session.Duplex.{Record, Cipher}
use secure_tunnel.Examples.Toy.{tag, open-tag}
use secure_tunnel.Examples.Ik.{ik}

-- Records that were sealed from the count `i` on.
abbrev pub Sent : ℕ → List (Record ik) → Type 0
Sent i [] = Unit {0}
Sent i ((plaintext, ciphertext) ∷ q) = (ciphertext ≡ plaintext ++ tag i) × Sent (i + 1) q

pub Sent-append :
    (i : ℕ) (q : List (Record ik)) (plaintext : Bytes)
    → Sent i q
    → Sent i (q ++ ((plaintext, plaintext ++ tag (i + length q)) ∷ []))
Sent-append i [] plaintext u = (ap (λ k. plaintext ++ tag k) (omega arith), tt)
Sent-append i (r ∷ q) plaintext (same, rest) = (
  same,
  subst (λ k. Sent (i + 1) (q ++ ((plaintext, plaintext ++ tag k) ∷ []))) (omega arith)
      (Sent-append (i + 1) q plaintext rest),
)

abbrev pub Flight : ℕ → ℕ × ℕ → List (Record ik) → ℕ × ℕ → Type 0
Flight n a q b = Sent b.1 q × (a.0 ≡ b.1 + length q)

unfoldable pub ik_cipher : Cipher ik
ik_cipher = record {
  Flight = Flight;
  seals = λ n m a b q back plaintext (sent, count) kept size. (
    plaintext ++ tag a.0,
    (a.0 + 1, a.1),
    length-append plaintext (tag a.0),
    refl,
    (
      rw count (Sent-append b.1 q plaintext sent),
      omega (arith, count, length-append q ((plaintext, plaintext ++ tag a.0) ∷ [])),
    ),
    kept,
  );
  opens = λ n m a b plaintext ciphertext q back ((same, sent), count) kept.
      ((b.0, b.1 + 1), rw (same, open-tag b.1 plaintext) refl, (sent, omega (arith, count)), kept);
}

abbrev pub session : TransportSession
session = record { state = 4 }

abbrev pub held : Heap ik
held = λ a. holding ik (0, 0)
