-- ===== src/PeerList/Connections.antt =====
-- What `add_peer` of src/peer_list.rs records.
use mpconn.Base.{ℕ, ◌≡◌, Option-cases, inl, inr, Option, none, some, ite, ℕ_discrete, arith, []}
use mpconn.Base.HashMap
use mpconn.Base.HashMap.{get-insert, get-update}
use mpconn.Net.{SocketAddr, SocketAddr-discrete}
use mpconn.PeerList.{Peer, PeerList, new_peer, insert_connection, see_connection, add_peer}

-- When the peer was last seen at the address.
unfoldable pub connection_seen : SocketAddr → Option Peer → Option ℕ
connection_seen address none = none
connection_seen address (some peer) = HashMap.get SocketAddr-discrete address peer.connections

unfoldable pub last_seen : ℕ → SocketAddr → PeerList → Option ℕ
last_seen peer_id address list = connection_seen address (HashMap.get ℕ_discrete peer_id list.peers)

get-see_connection :
    (a b : SocketAddr) (now : ℕ) (peer : Peer)
    → HashMap.get SocketAddr-discrete b (see_connection a now peer).connections
      ≡ ite
          (SocketAddr-discrete a b)
          (some now)
          (HashMap.get SocketAddr-discrete b peer.connections)
unfolding see_connection insert_connection
get-see_connection a b now peer = ground (
  arith,
  get-insert SocketAddr-discrete a b now peer.connections,
  get-update SocketAddr-discrete a b (λ _. now) peer.connections,
)

get_first_connection :
    (a b : SocketAddr) (now : ℕ)
    → HashMap.get SocketAddr-discrete b (insert_connection a now (new_peer now)).connections
      ≡ ite (SocketAddr-discrete a b) (some now) none
unfolding insert_connection new_peer HashMap.get
get_first_connection a b now = get-insert SocketAddr-discrete a b now []

-- After `add_peer(i, a)` at the time `now`, peer i was last seen at the address a at `now`; every
-- other connection of every peer is as before.
pub last_seen-add_peer :
    (i j : ℕ) (a b : SocketAddr) (now : ℕ) (list : PeerList)
    → last_seen j b (add_peer i a now list)
      ≡ ite
          (ℕ_discrete i j)
          (ite (SocketAddr-discrete a b) (some now) (last_seen j b list))
          (last_seen j b list)
unfolding last_seen connection_seen add_peer
last_seen-add_peer i j a b now list = elim (Option-cases (HashMap.get ℕ_discrete i list.peers)) [
  | inl new ↦
      rw (new, add_peer)
        (ground (
          arith,
          get-insert ℕ_discrete i j (insert_connection a now (new_peer now)) list.peers,
          get_first_connection a b now,
          new,
        ))
  | inr (peer, old) ↦
      rw (old, add_peer)
        (ground (
          arith,
          get-update ℕ_discrete i j (see_connection a now) list.peers,
          get-see_connection a b now peer,
          old,
        ))
]
