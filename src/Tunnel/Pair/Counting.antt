-- ===== src/Tunnel/Pair/Counting.antt =====
-- The reads of plaintext in a run of a tunnel.
use secure_tunnel.Prelude.{ℕ, ◌+◌, ◌≡◌, List, [], ◌∷◌, arith}
use secure_tunnel.Tunnel.Relay.Tasks.{Move, reads, opens, sealing_panics, opening_panics, turns}
use secure_tunnel.Tunnel.Pair.{
  Step, at_client, at_server, carries_up, carries_down, ends_up, ends_down, breaks_up, breaks_down,
}

-- The calls of `read` among the moves of a side.
abbrev pub reading_calls : Move → ℕ
reading_calls (reads result) = 1
reading_calls opens = 0
reading_calls (sealing_panics text) = 0
reading_calls (opening_panics text) = 0
reading_calls (turns now branch) = 0

-- The calls of `read` on plaintext at each side.
abbrev pub client_reads : List Step → ℕ
client_reads [] = 0
client_reads (at_client m ∷ ts) = reading_calls m + client_reads ts
client_reads (at_server m ∷ ts) = client_reads ts
client_reads (carries_up n ∷ ts) = client_reads ts
client_reads (carries_down n ∷ ts) = client_reads ts
client_reads (ends_up text ∷ ts) = client_reads ts
client_reads (ends_down text ∷ ts) = client_reads ts
client_reads (breaks_up text ∷ ts) = client_reads ts
client_reads (breaks_down text ∷ ts) = client_reads ts

abbrev pub server_reads : List Step → ℕ
server_reads [] = 0
server_reads (at_client m ∷ ts) = server_reads ts
server_reads (at_server m ∷ ts) = reading_calls m + server_reads ts
server_reads (carries_up n ∷ ts) = server_reads ts
server_reads (carries_down n ∷ ts) = server_reads ts
server_reads (ends_up text ∷ ts) = server_reads ts
server_reads (ends_down text ∷ ts) = server_reads ts
server_reads (breaks_up text ∷ ts) = server_reads ts
server_reads (breaks_down text ∷ ts) = server_reads ts

pub client_reads_cons :
    (t : Step) (ts : List Step) → client_reads (t ∷ []) + client_reads ts ≡ client_reads (t ∷ ts)
client_reads_cons (at_client m) ts = omega arith
client_reads_cons (at_server m) ts = omega arith
client_reads_cons (carries_up n) ts = omega arith
client_reads_cons (carries_down n) ts = omega arith
client_reads_cons (ends_up text) ts = omega arith
client_reads_cons (ends_down text) ts = omega arith
client_reads_cons (breaks_up text) ts = omega arith
client_reads_cons (breaks_down text) ts = omega arith

pub server_reads_cons :
    (t : Step) (ts : List Step) → server_reads (t ∷ []) + server_reads ts ≡ server_reads (t ∷ ts)
server_reads_cons (at_client m) ts = omega arith
server_reads_cons (at_server m) ts = omega arith
server_reads_cons (carries_up n) ts = omega arith
server_reads_cons (carries_down n) ts = omega arith
server_reads_cons (ends_up text) ts = omega arith
server_reads_cons (ends_down text) ts = omega arith
server_reads_cons (breaks_up text) ts = omega arith
server_reads_cons (breaks_down text) ts = omega arith
