-- ===== src/Tunnel/Pair/Delivered.antt =====
-- What the two relays of a tunnel have delivered, at any time and at the end.
use secure_tunnel.Prelude.{
  ℕ, Bytes, ◌≡◌, ◌≢◌, sym, ap, subst, ◌⊎◌, inl, inr, List, [], true, All, ok,
}
use secure_tunnel.Protocol.Noise.{Noise}
use secure_tunnel.Protocol.Session.{TransportSession}
use secure_tunnel.Protocol.Session.Channel.{holding}
use secure_tunnel.Protocol.Session.Duplex.{Cipher}
use secure_tunnel.Tunnel.Io.{Input}
use secure_tunnel.Tunnel.Relay.{returned, RelayEnd}
use secure_tunnel.Tunnel.Relay.Tasks.{Progress, finished, over}
use secure_tunnel.Tunnel.Pair.{Step, Pair, steps}
use secure_tunnel.Tunnel.Pair.Way.{ended_well, Live, IsOver, Way}
use secure_tunnel.Tunnel.Pair.Counting.{client_reads, server_reads}
use secure_tunnel.Tunnel.Pair.Runs.{
  IsPrefix, Begun, IsSmallStep, begin, IsInStep, steps-IsInStep, begin-IsInStep,
}
use secure_tunnel.Tunnel.Pair.Closing.{IsClosedBy, IsClosed, steps-IsClosed}

-- A direction in which both tasks have ended well has delivered everything.
module _ (N : Noise) (C : Cipher N) {n : ℕ} {source written : Bytes} {carried : ℕ}
    {sealing : Progress} {i : Input} {sunk : Bytes} {opening : Progress}
    {a b : Noise.TransportState N} where
  Way-complete :
      Way N C n source written carried sealing i sunk opening a b
      → sealing ≡ finished (returned (ok tt))
      → ended_well opening ≡ true
      → sunk ≡ source
  Way-complete w sent well = settled w.state
    where
      settled :
          ((w.lost ≡ []) × Live N C written carried sealing i opening w.queue)
            ⊎ IsOver N C source sealing sunk opening
          → sunk ≡ source
      settled (inl (none_lost, l)) = absurd (cc (well, l.unended))
      settled (inr (stopped, inl bad)) = absurd (cc (well, bad))
      settled (inr (stopped, inr (idle, inl same))) = sym same
      settled (inr (stopped, inr (idle, inr bad))) = absurd (cc (bad, ap ended_well sent))

module _ (N : Noise) (C : Cipher N) where
  open N use {TransportState}

  module _ (c s : TransportSession) (x y : Begun N) (ts : List Step) (a b : TransportState) where
    abbrev after : Pair N
    after = steps N c s x.idle y.idle ts (begin N C x y)

    -- Both relays of a tunnel run, with nothing yet read or written, from cells whose transports are
    -- in step both ways for the reads of plaintext that follow, each of at most 16384 bytes.  Whatever
    -- happens then, in whatever order: rounds of the four tasks, writers that fail, panics, turns of the
    -- two loops with joins, activity, idle timers and shutdowns, and a network that carries bytes in
    -- order, in pieces, ends a stream after its writer stopped and all of it came, or breaks it. At
    -- every time, what has been written to the destination is a prefix of what the client has read from
    -- the application, and what has been written to the application is a prefix of what the server has
    -- read from the destination.
    pub steps-IsPrefix :
        C.Flight (client_reads ts) a [] b
        → C.Flight (server_reads ts) b [] a
        → x.heap c.state ≡ holding N a
        → y.heap s.state ≡ holding N b
        → All (IsSmallStep N C) ts
        → IsPrefix after.server.sink.written after.client.source
          × IsPrefix after.client.sink.written after.server.source
    steps-IsPrefix forth back held held' small =
        let i =
          steps-IsInStep N C c s x.idle y.idle ts _ small
            (begin-IsInStep N C c s x y ts a b forth back held held') in
        ((_, i.up.total), (_, i.down.total))

    -- When, in such a run, the relay of the client has returned without an error and the outbound task
    -- of the server has ended well: what has been written to the application is exactly what the server
    -- has read from the destination.
    pub client_relay_complete :
        (end : RelayEnd)
        → C.Flight (client_reads ts) a [] b
        → C.Flight (server_reads ts) b [] a
        → x.heap c.state ≡ holding N a
        → y.heap s.state ≡ holding N b
        → All (IsSmallStep N C) ts
        → after.client.watch ≡ over end
        → end.result ≡ ok tt
        → after.server.sealing ≡ finished (returned (ok tt))
        → after.client.sink.written ≡ after.server.source
    unfolding IsClosed
    client_relay_complete end forth back held held' small watching good sent =
        Way-complete N C i.down sent (elim closed [ inl bad ↦ absurd (bad good) | inr h ↦ h ])
      where
        i : IsInStep N C c s 0 0 after
        i =
            steps-IsInStep N C c s x.idle y.idle ts _ small
              (begin-IsInStep N C c s x y ts a b forth back held held')

        closed : (end.result ≢ ok tt) ⊎ (ended_well after.client.opening ≡ true)
        closed =
            subst (IsClosedBy after.client.opening) watching
              (steps-IsClosed N c s x.idle y.idle ts (begin N C x y) tt)

    -- When, in such a run, the uplink task of the client and the inbound task of the server have both
    -- ended well, whatever else has ended or failed: what has been written to the destination is exactly
    -- what the client has read from the application.
    pub inbound_complete :
        C.Flight (client_reads ts) a [] b
        → C.Flight (server_reads ts) b [] a
        → x.heap c.state ≡ holding N a
        → y.heap s.state ≡ holding N b
        → All (IsSmallStep N C) ts
        → after.client.sealing ≡ finished (returned (ok tt))
        → after.server.opening ≡ finished (returned (ok tt))
        → after.server.sink.written ≡ after.client.source
    inbound_complete forth back held held' small sent delivered =
        let i =
          steps-IsInStep N C c s x.idle y.idle ts _ small
            (begin-IsInStep N C c s x y ts a b forth back held held') in
        Way-complete N C i.up sent (ap ended_well delivered)
