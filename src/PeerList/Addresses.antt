-- ===== src/PeerList/Addresses.antt =====
-- Which addresses `get_all_connections` of src/peer_list.rs gives.
use mpconn.Base.{ℕ, ◌≡◌, ◌≢◌, ◌↔◌, Any, none, some, refl, List, [], ◌∷◌, ◌++◌, ℕ_discrete}
use mpconn.Base.HashMap
use mpconn.Base.HashMap.{HashMap, AllEntries, IsDistinct, keys, values}
use mpconn.Base.HashMap.Keys.{NoRepeats, keys-NoRepeats, keys-found, entries-found}
use mpconn.Net.{SocketAddr, SocketAddr-discrete}
use mpconn.PeerList.{Peer, PeerList, connections_of, get_all_connections}
use mpconn.PeerList.Connections.{last_seen, connection_seen}
use mpconn.PeerList.Validity.{IsPeer, IsValid}

-- The known peers, each once.
abbrev pub ArePeers : PeerList → List ℕ → Type 0
ArePeers list ids =
    NoRepeats ids
    × ((id : ℕ) → Any (λ j. j ≡ id) ids ↔ (HashMap.get ℕ_discrete id list.peers ≢ none))

-- The addresses at which a peer has been seen, each once.
abbrev pub AreAddressesOf : PeerList → ℕ → List SocketAddr → Type 0
AreAddressesOf list peer_id addresses =
    NoRepeats addresses
    × ((a : SocketAddr) → Any (λ b. b ≡ a) addresses ↔ (last_seen peer_id a list ≢ none))

-- The addresses of some peers, one peer after the other.
abbrev pub AreAddresses : PeerList → List ℕ → List SocketAddr → Type 0
AreAddresses list [] all = all ≡ []
AreAddresses list (id ∷ ids) all =
    (addresses : List SocketAddr) × (rest : List SocketAddr) × AreAddressesOf list id addresses
    × (all ≡ addresses ++ rest)
    × AreAddresses list ids rest

keys-AreAddressesOf :
    (list : PeerList) (id : ℕ) (peer : Peer)
    → IsDistinct SocketAddr-discrete peer.connections
    → HashMap.get ℕ_discrete id list.peers ≡ some peer
    → AreAddressesOf list id (keys peer.connections)
unfolding last_seen connection_seen
keys-AreAddressesOf list id peer distinct found = (
  keys-NoRepeats SocketAddr-discrete peer.connections distinct,
  λ a. rw found (keys-found SocketAddr-discrete a peer.connections),
)

connections_of-AreAddresses :
    (now : ℕ) (list : PeerList) (m : HashMap ℕ Peer)
    → AllEntries (IsPeer now) m
    → AllEntries (λ id peer. HashMap.get ℕ_discrete id list.peers ≡ some peer) m
    → AreAddresses list (keys m) (connections_of (values m))
unfolding connections_of
connections_of-AreAddresses now list [] valid found = refl
connections_of-AreAddresses now list ((id, peer) ∷ m) valid found = (
  keys peer.connections,
  connections_of (values m),
  keys-AreAddressesOf list id peer valid.0.distinct found.0,
  refl,
  connections_of-AreAddresses now list m valid.1 found.1,
)

-- All addresses of all known peers.
pub get_all_connections-AreAddresses :
    (now : ℕ) (list : PeerList)
    → IsValid now list
    → (ids : List ℕ) × ArePeers list ids × AreAddresses list ids (get_all_connections list)
unfolding get_all_connections
get_all_connections-AreAddresses now list v = (
  keys list.peers,
  (keys-NoRepeats ℕ_discrete list.peers v.distinct, λ id. keys-found ℕ_discrete id list.peers),
  connections_of-AreAddresses now list list.peers v.peers
      (entries-found ℕ_discrete list.peers v.distinct),
)
