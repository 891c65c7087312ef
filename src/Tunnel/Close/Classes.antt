-- ===== src/Tunnel/Close/Classes.antt =====
-- How contexts change the reason for which a connection counts as closed.
use secure_tunnel.Prelude.{
  ◌≡◌, refl, ap, [], ◌∷◌, ◌++◌, Bool, true, ◌||◌, Text, codes, contains, starts_with,
  to_ascii_lowercase, lower_code, arith,
}
use secure_tunnel.Tunnel.Io.{Error, render}
use secure_tunnel.Tunnel.Close.{shutdown, from_error, from_message, message_of}

contains-append :
    (piece before text : Text) → contains piece text ≡ true → contains piece (before ++ text) ≡ true
contains-append piece [] text h = h
contains-append piece (c ∷ cs) text h =
    rw (contains-append piece cs text h) (or_true (starts_with piece (c ∷ (cs ++ text))))
  where
    or_true : (b : Bool) → (b || true) ≡ true
    or_true b = ground arith

lower-append :
    (s t : Text) → to_ascii_lowercase (s ++ t) ≡ to_ascii_lowercase s ++ to_ascii_lowercase t
lower-append [] t = refl
lower-append (c ∷ cs) t = ap (λ u. lower_code c ∷ u) (lower-append cs t)

-- A non-empty piece that is in the rendered error is in it under any context.
context-contains :
    (c : _) (piece text : Text) (e : Error)
    → contains (c ∷ piece) (message_of e) ≡ true
    → contains (c ∷ piece) (message_of (text ∷ e)) ≡ true
context-contains c piece text [] h = absurd (ground arith)
context-contains c piece text (t ∷ e) h = rw (lower-append text (codes ": " ++ render (t ∷ e))) (
    contains-append (c ∷ piece) (to_ascii_lowercase text) _
      (contains-append (c ∷ piece) (codes ": ") (message_of (t ∷ e)) h))

from_message-shutdown :
    (m : Text) → from_message m ≡ shutdown → contains (codes "shutdown requested") m ≡ true
unfolding from_message
from_message-shutdown m h = ground arith

-- An error that counts as a shutdown still does under whatever context it is returned.
context_keeps_shutdown :
    (text : Text) (e : Error) → from_error e ≡ shutdown → from_error (text ∷ e) ≡ shutdown
unfolding from_error from_message
context_keeps_shutdown text e h =
    rw
      (context-contains b's' (codes "hutdown requested") text e
        (from_message-shutdown (message_of e) h))
      refl
