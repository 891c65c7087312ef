-- ===== src/Protocol/Session/Duplex/Carrying.antt =====
-- A cipher for both directions carries records in each of them.
use secure_tunnel.Prelude.{ℕ, []}
use secure_tunnel.Protocol.Noise.{Noise}
use secure_tunnel.Protocol.Session.Channel.{Channel}
use secure_tunnel.Protocol.Session.Duplex.{Cipher}

module _ (N : Noise) (D : Cipher N) where
  open N use {TransportState}

  -- With nothing in flight, the one opens what the other seals; so does the other, for some number of
  -- records.
  abbrev pub Linked : ℕ → TransportState → TransportState → Type 0
  Linked n a b = (m : ℕ) × D.Flight n a [] b × D.Flight m b [] a

  abbrev pub channel_of : Channel N
  channel_of = record {
    Linked = Linked;
    carries = λ n a b plaintext (m, forth, back) size.
        let (ciphertext, a', tagged, written, flight, kept) =
          D.seals n m a b [] [] plaintext forth back size in
        let (b', read, arrived, kept') = D.opens n m a' b plaintext ciphertext [] [] flight kept in
        record {
          ciphertext = ciphertext;
          sender = a';
          receiver = b';
          tagged = tagged;
          written = written;
          read = read;
          linked = (m, arrived, kept');
        };
  }
