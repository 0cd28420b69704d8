-- ===== src/PeerList.antt =====
-- src/peer_list.rs: the known peers, their connections with the time that each was last seen, and a
-- sequencer and a transmit counter for each. Times are nanoseconds; a function that reads the clock
-- takes the reading as an argument.
pub mod Validity
pub mod Connections
pub mod Addresses
pub mod Pruning
pub mod Counters
pub mod Delivery
use mpconn.Base.{
  ℕ, ◌+◌, ◌-◌, ◌*◌, ◌%◌, ◌^◌, Option, none, some, List, [], ◌∷◌, ◌++◌, ltb, if◌then◌else◌,
  ℕ_discrete, Outcome, done, panic, ◌>>=◌, clock_went_backwards, unknown_peer,
}
use mpconn.Base.HashMap
use mpconn.Base.HashMap.{HashMap, keys, values}
use mpconn.Net.{SocketAddr, SocketAddr-discrete}
use mpconn.Sequencer
use mpconn.Sequencer.{Sequencer}
use mpconn.Settings.{PeerConfig}

abbrev pub from_secs : ℕ → ℕ
from_secs n = n * 1_000_000_000

abbrev pub from_millis : ℕ → ℕ
from_millis n = n * 1_000_000

pub record Peer : Type 0 where
  pub connections : HashMap SocketAddr ℕ
  pub tx_counter : ℕ
  pub sequencer : Sequencer

pub record PeerList : Type 0 where
  pub peers : HashMap ℕ Peer
  pub stale_time_limit : ℕ

-- `Peer { connections: HashMap::new(), … }`, which `new` and `add_peer` both write out
unfoldable pub new_peer : ℕ → Peer
new_peer now = record {
  connections = [];
  tx_counter = 0;
  sequencer = Sequencer.new (from_millis 3) now;
}

unfoldable pub insert_connection : SocketAddr → ℕ → Peer → Peer
insert_connection address now peer = record peer {
  connections = HashMap.insert SocketAddr-discrete address now peer.connections;
}

-- `for connection in peer.addresses`
unfoldable pub insert_connections : List SocketAddr → ℕ → Peer → Peer
insert_connections [] now peer = peer
insert_connections (address ∷ addresses) now peer =
    insert_connections addresses now (insert_connection address now peer)

-- `for peer in peers`
unfoldable pub insert_configs : List PeerConfig → ℕ → PeerList → PeerList
insert_configs [] now list = list
insert_configs (config ∷ configs) now list = insert_configs configs now (record list {
  peers =
      HashMap.insert ℕ_discrete config.id (insert_connections config.addresses now (new_peer now))
        list.peers;
})

unfoldable pub new : Option (List PeerConfig) → ℕ → PeerList
unfolding insert_configs
new peers now =
    let peer_list : PeerList = record { peers = []; stale_time_limit = from_secs 30 } in
    elim peers [ none ↦ peer_list | some configs ↦ insert_configs configs now peer_list ]

-- The known peer's branch of `add_peer`.
unfoldable pub see_connection : SocketAddr → ℕ → Peer → Peer
unfolding insert_connection
see_connection address now peer = elim (HashMap.get SocketAddr-discrete address peer.connections) [
  | some _ ↦ record peer {
    connections = HashMap.update SocketAddr-discrete address (λ _. now) peer.connections;
  }
  | none ↦ insert_connection address now peer
]

unfoldable pub add_peer : ℕ → SocketAddr → ℕ → PeerList → PeerList
add_peer peer_id address now list = elim (HashMap.get ℕ_discrete peer_id list.peers) [
  | some _ ↦ record list {
    peers = HashMap.update ℕ_discrete peer_id (see_connection address now) list.peers;
  }
  | none ↦ record list {
    peers =
        HashMap.insert ℕ_discrete peer_id (insert_connection address now (new_peer now)) list.peers;
  }
]

unfoldable pub connections_of : List Peer → List SocketAddr
connections_of [] = []
connections_of (peer ∷ peers) = keys peer.connections ++ connections_of peers

unfoldable pub get_all_connections : PeerList → List SocketAddr
unfolding connections_of
get_all_connections list = connections_of (values list.peers)

unfoldable pub get_peer_ids : PeerList → List ℕ
get_peer_ids list = keys list.peers

unfoldable pub get_peer_connections : ℕ → PeerList → List SocketAddr
get_peer_connections peer_id list = elim (HashMap.get ℕ_discrete peer_id list.peers) [
  | some peer ↦ keys peer.connections
  | none ↦ []
]

-- The borrow `&mut peer.sequencer`: what is read through it, and, below, a write through it.
unfoldable pub get_peer_sequencer : ℕ → PeerList → Option Sequencer
get_peer_sequencer peer_id list = elim (HashMap.get ℕ_discrete peer_id list.peers) [
  | some peer ↦ some peer.sequencer
  | none ↦ none
]

unfoldable pub set_peer_sequencer : ℕ → Sequencer → PeerList → PeerList
set_peer_sequencer peer_id s list = record list {
  peers = HashMap.update ℕ_discrete peer_id (λ peer. record peer { sequencer = s }) list.peers;
}

-- A `u64`, which wraps in a release build.
unfoldable pub increment_tx_counter : Peer → Peer
increment_tx_counter peer = record peer { tx_counter = (peer.tx_counter + 1) % 2 ^ 64 }

unfoldable pub increment_peer_tx_counter : ℕ → PeerList → PeerList
increment_peer_tx_counter peer_id list = record list {
  peers = HashMap.update ℕ_discrete peer_id increment_tx_counter list.peers;
}

unfoldable pub get_peer_tx_counter : ℕ → PeerList → Outcome ℕ
get_peer_tx_counter peer_id list = elim (HashMap.get ℕ_discrete peer_id list.peers) [
  | some peer ↦ done peer.tx_counter
  | none ↦ panic unknown_peer
]

-- `connections.retain(|_, lastseen| now.duration_since(*lastseen).unwrap().lt(&limit))`
unfoldable pub retain_fresh : ℕ → ℕ → HashMap SocketAddr ℕ → Outcome (HashMap SocketAddr ℕ)
retain_fresh now limit [] = done []
retain_fresh now limit ((address, lastseen) ∷ rest) =
    if ltb now lastseen
    then panic clock_went_backwards
    else retain_fresh now limit rest >>= λ kept.
        done (if ltb (now - lastseen) limit then (address, lastseen) ∷ kept else kept)

-- `for (peer_id, peer) in self.peers.iter_mut()`
unfoldable pub prune_peers : ℕ → ℕ → HashMap ℕ Peer → Outcome (HashMap ℕ Peer)
prune_peers now limit [] = done []
prune_peers now limit ((peer_id, peer) ∷ rest) = do
  kept ← retain_fresh now limit peer.connections
  pruned ← prune_peers now limit rest
  done ((peer_id, record peer { connections = kept }) ∷ pruned)

unfoldable pub prune_stale_peers : ℕ → PeerList → Outcome PeerList
unfolding prune_peers retain_fresh
prune_stale_peers now list = do
  pruned ← prune_peers now list.stale_time_limit list.peers
  done (record list { peers = pruned })
