-- ===== src/Transport/Peers.antt =====
-- peer.cpp and transport.cpp: PeerImpl and TransportImpl, which hand each message to the session of its
-- receiver. The callbacks run on one thread in the order they were posted.
use kvd.Base.{
  ℕ, List, [], ◌∷◌, Option, none, some, ◌==◌, if◌then◌else◌, lookup, insert, is_some, add32, Result,
  ok, ◌>>=◌,
}
use kvd.Proto.{Message}
use kvd.Transport.{transport_stream, transport_debug, debug_bytes}
use kvd.Transport.Client.{ClientSession, new_client, send_frame}

-- PeerImpl. A session that is made starts to connect.
pub record Peer : Type 0 where
  pub peer : ℕ
  pub session : Option ClientSession

unfoldable pub do_send_data : ℕ → List ℕ → Peer → Result Peer
do_send_data type payload p =
    elim p.session [
      | none ↦ send_frame type payload new_client
      | some s ↦ send_frame type payload s
    ]
    >>= λ s. ok (record p { session = some s })

unfoldable pub send_message : (Message → List ℕ) → Message → Peer → Result Peer
send_message pack msg = do_send_data transport_stream (pack msg)

-- The part of start_timer that sends, and the count after it.
unfoldable pub send_tick : ℕ → Peer → Result (ℕ × Peer)
send_tick tick p = do_send_data transport_debug (debug_bytes tick) p >>= λ q. ok (add32 tick 2, q)

-- TransportImpl, with the count that its peers share.
pub record Transport : Type 0 where
  pub peers : List (ℕ × Peer)
  pub tick : ℕ

unfoldable pub add_peer : ℕ → Transport → Result Transport
add_peer id t =
    if is_some (lookup id t.peers)
    then ok t
    else (send_tick t.tick (record { peer = id; session = none }) >>= λ p.
        ok (record { peers = insert id p.1 t.peers; tick = p.0 }))

unfoldable pub send_one : (Message → List ℕ) → Message → Transport → Result Transport
send_one pack msg t = if msg.to == 0 then ok t else elim (lookup msg.to t.peers) [
  | none ↦ ok t
  | some p ↦ send_message pack msg p >>= λ q. ok (record t { peers = insert msg.to q t.peers })
]

-- The callback of send.
unfoldable pub send : (Message → List ℕ) → List Message → Transport → Result Transport
send pack [] t = ok t
send pack (msg ∷ msgs) t = send_one pack msg t >>= λ u. send pack msgs u
