-- ===== src/Tunnel/Io.antt =====
-- Errors with their contexts, and the streams of the asynchronous runtime as the program sees them.
use secure_tunnel.Prelude.{
  ℕ, List, [], ◌∷◌, ◌++◌, Option, some, none, Bool, true, leb, if◌then◌else◌, length, take, drop,
  Text, codes, Bytes, Result, ok, err,
}
use secure_tunnel.Prelude.Exec.{Exec}

-- An `anyhow::Error`: its texts from the outermost context to the innermost source.
abbrev pub Error : Type 0
Error = List Text

abbrev pub anyhow : Text → Error
anyhow text = text ∷ []

-- `result.context(text)`
abbrev pub context {ℓ} : {A : Type ℓ} → Text → Result Error A → Result Error A
context text (ok a) = ok a
context text (err e) = err (text ∷ e)

-- `enable_tcp_keepalive` on what the socket option returned.
abbrev pub enable_tcp_keepalive : Result Text (Unit {0}) → Result Error (Unit {0})
enable_tcp_keepalive (ok u) = ok u
enable_tcp_keepalive (err text) = err (codes "could not enable TCP keepalive" ∷ text ∷ [])

-- `format!("{error:#}")`
abbrev pub render : Error → Text
render [] = []
render (text ∷ []) = text
render (text ∷ more ∷ rest) = text ++ (codes ": " ++ render (more ∷ rest))

-- Why a task does not go on: an error that it returns, or input that has not come; `exhausted` is
-- no behaviour of the program, but a loop of the model that ran out of fuel.
pub data Stop : Type 0 where
  failed : Error → Stop
  waiting : Stop
  exhausted : Stop

-- What follows the bytes that have arrived: the end of the stream, an error, or more to come.
-- `ended` has the text of the runtime's error for an end in the middle of `read_exact`.
pub data Ending : Type 0 where
  ended : Text → Ending
  broken : Text → Ending
  silent : Ending

-- How the bytes were cut into packets does not matter to `read_exact`, which reads on until its
-- buffer is full.
pub record Input : Type 0 where
  pub bytes : Bytes
  pub ending : Ending

abbrev pub stop : Ending → Stop
stop (ended text) = failed (anyhow text)
stop (broken text) = failed (anyhow text)
stop silent = waiting

unfoldable pub read_exact : ℕ → Exec Input Stop Bytes
read_exact n i =
    if leb n (length i.bytes)
    then (ok (take n i.bytes), record i { bytes = drop n i.bytes })
    else (err (stop i.ending), record i { bytes = [] })

abbrev read_byte_from : Bytes → Ending → Exec Input Stop (Option ℕ)
read_byte_from (b ∷ rest) ending i = (ok (some b), record i { bytes = rest })
read_byte_from [] (ended text) i = (ok none, i)
read_byte_from [] (broken text) i = (err (failed (anyhow text)), i)
read_byte_from [] silent i = (err waiting, i)

-- `reader.read(&mut header[..1])`: one byte, or none at the end of the stream.
unfoldable pub read_byte : Exec Input Stop (Option ℕ)
read_byte i = read_byte_from i.bytes i.ending i

-- The next call on a writer goes well, or it fails after some bytes went out.
pub data Fault : Type 0 where
  fine : Fault
  breaks : ℕ → Text → Fault

-- What a writer has put out, whether it is shut down, and what its next calls will meet; after
-- those all go well.
pub record Output : Type 0 where
  pub written : Bytes
  pub shut : Bool
  pub faults : List Fault

abbrev pub put_out : Bytes → Bool → List Fault → Exec Output Stop (Unit {0})
put_out bytes closing [] o = (ok tt, record o { written = o.written ++ bytes; shut = closing })
put_out bytes closing (fine ∷ rest) o =
    (ok tt, record { written = o.written ++ bytes; shut = closing; faults = rest })
put_out bytes closing (breaks n text ∷ rest) o =
    (err (failed (anyhow text)), record o { written = o.written ++ take n bytes; faults = rest })

unfoldable pub write_all : Bytes → Exec Output Stop (Unit {0})
write_all bytes o = put_out bytes o.shut o.faults o

unfoldable pub flush : Exec Output Stop (Unit {0})
flush o = put_out [] o.shut o.faults o

unfoldable pub shutdown : Exec Output Stop (Unit {0})
shutdown o = put_out [] true o.faults o
