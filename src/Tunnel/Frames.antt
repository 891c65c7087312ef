-- ===== src/Tunnel/Frames.antt =====
-- The frame readers, the same in crates/secure-tunnel-client/src/main.rs and
-- crates/secure-tunnel-server/src/main.rs.
pub mod Wire
pub mod Handshake
pub mod Short
use secure_tunnel.Prelude.{
  ℕ, ◌∷◌, ◌++◌, Option, some, none, ltb, ◌==◌, ◌||◌, if◌then◌else◌, get_or, codes, decimal, Bytes,
}
use secure_tunnel.Prelude.Exec.{Exec, pure, fail_if, ◌>>=◌, ◌>>◌}
use secure_tunnel.Protocol.Error.{max_handshake_message, max_ciphertext_record}
use secure_tunnel.Protocol.Frame.{u16_from_be_bytes, u32_from_be_bytes}
use secure_tunnel.Tunnel.Io.{Stop, failed, anyhow, Input, read_exact, read_byte}

-- What `read_record_frame` does once it has the first byte of the header.
read_record_from : Option ℕ → Exec Input Stop (Option Bytes)
read_record_from none = pure none
read_record_from (some first) = do
  rest ← read_exact 3
  let length = u32_from_be_bytes first (get_or rest 0 0) (get_or rest 1 0) (get_or rest 2 0)
  fail_if (length == 0 || ltb max_ciphertext_record length)
      (failed (anyhow (codes "invalid frame length " ++ decimal length)))
  body ← read_exact length
  pure (some (first ∷ (rest ++ body)))

unfoldable pub read_record_frame : Exec Input Stop (Option Bytes)
unfolding read_record_from
read_record_frame = do first ← read_byte; read_record_from first

pub read_length_framed : ℕ → ℕ → Exec Input Stop Bytes
read_length_framed header_len maximum = do
  header ← read_exact header_len
  let length =
      if header_len == 2
      then u16_from_be_bytes (get_or header 0 0) (get_or header 1 0)
      else u32_from_be_bytes (get_or header 0 0) (get_or header 1 0) (get_or header 2 0)
          (get_or header 3 0)
  fail_if (ltb maximum length) (failed (anyhow (codes "received oversized protocol frame")))
  body ← read_exact length
  pure (header ++ body)

pub read_handshake_frame : Exec Input Stop Bytes
unfolding read_length_framed
read_handshake_frame = read_length_framed 2 max_handshake_message
