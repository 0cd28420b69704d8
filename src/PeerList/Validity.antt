-- ===== src/PeerList/Validity.antt =====
-- The invariant of src/peer_list.rs.
use mpconn.Base.{
  ℕ, ◌≤◌, ◌<◌, ◌^◌, ◌≡◌, Option-cases, inl, inr, Option, none, some, List, [], ◌∷◌, ℕ_discrete,
  arith,
}
use mpconn.Base.BTreeMap
use mpconn.Base.HashMap
use mpconn.Base.HashMap.{
  HashMap, AllEntries, AllEntries-mono, IsDistinct, insert-IsDistinct, update-IsDistinct,
  insert-AllEntries, update-AllEntries, get-AllEntries,
}
use mpconn.Messages.{Packet}
use mpconn.Net.{SocketAddr, SocketAddr-discrete}
use mpconn.Sequencer
use mpconn.Sequencer.{Sequencer}
use mpconn.Sequencer.Invariant
use mpconn.Settings.{PeerConfig}
use mpconn.PeerList.{
  Peer, PeerList, new_peer, insert_connection, insert_connections, insert_configs, new,
  see_connection, add_peer, set_peer_sequencer, increment_tx_counter, increment_peer_tx_counter,
}

-- The queue holds packets of one peer only.
abbrev pub IsOwned : ℕ → ℕ → Packet → Type 0
IsOwned peer_id key pkt = pkt.peer_id ≡ peer_id

-- A sequencer of the peer `peer_id` at the time `now`.
pub record IsPeerSequencer (now peer_id : ℕ) (s : Sequencer) : Type 0 where
  pub valid : Invariant.IsValid s
  pub clock : s.last_update ≤ now
  pub owned : BTreeMap.AllEntries (IsOwned peer_id) s.packet_queue

pub record IsPeer (now peer_id : ℕ) (peer : Peer) : Type 0 where
  pub seen : AllEntries (λ address lastseen. lastseen ≤ now) peer.connections
  pub distinct : IsDistinct SocketAddr-discrete peer.connections
  pub counter : peer.tx_counter < 2 ^ 64
  pub sequencer : IsPeerSequencer now peer_id peer.sequencer

pub record IsValid (now : ℕ) (list : PeerList) : Type 0 where
  pub peers : AllEntries (IsPeer now) list.peers
  pub distinct : IsDistinct ℕ_discrete list.peers

new_peer-IsPeer : (now peer_id : ℕ) → IsPeer now peer_id (new_peer now)
unfolding new_peer Sequencer.new
new_peer-IsPeer now peer_id = record {
  seen = tt;
  distinct = tt;
  counter = omega arith;
  sequencer = record { valid = Invariant.new-IsValid _ now; clock = omega arith; owned = tt };
}

insert_connection-IsPeer :
    (address : SocketAddr) (now peer_id : ℕ) (peer : Peer)
    → IsPeer now peer_id peer
    → IsPeer now peer_id (insert_connection address now peer)
unfolding insert_connection
insert_connection-IsPeer address now peer_id peer v = record {
  seen = insert-AllEntries SocketAddr-discrete _ address now peer.connections (omega arith) v.seen;
  distinct = insert-IsDistinct SocketAddr-discrete address now peer.connections v.distinct;
  counter = v.counter;
  sequencer = v.sequencer;
}

insert_connections-IsPeer :
    (addresses : List SocketAddr) (now peer_id : ℕ) (peer : Peer)
    → IsPeer now peer_id peer
    → IsPeer now peer_id (insert_connections addresses now peer)
unfolding insert_connections
insert_connections-IsPeer [] now peer_id peer v = v
insert_connections-IsPeer (address ∷ addresses) now peer_id peer v =
    insert_connections-IsPeer addresses now peer_id _
      (insert_connection-IsPeer address now peer_id peer v)

insert_configs-IsValid :
    (configs : List PeerConfig) (now : ℕ) (list : PeerList)
    → IsValid now list
    → IsValid now (insert_configs configs now list)
unfolding insert_configs
insert_configs-IsValid [] now list v = v
insert_configs-IsValid (config ∷ configs) now list v =
    insert_configs-IsValid configs now _ (record {
      peers =
          insert-AllEntries ℕ_discrete (IsPeer now) config.id _ list.peers
            (insert_connections-IsPeer config.addresses now config.id _
              (new_peer-IsPeer now config.id))
            v.peers;
      distinct = insert-IsDistinct ℕ_discrete config.id _ list.peers v.distinct;
    })

pub new-IsValid : (configs : Option (List PeerConfig)) (now : ℕ) → IsValid now (new configs now)
unfolding new
new-IsValid none now = record { peers = tt; distinct = tt }
new-IsValid (some configs) now =
    insert_configs-IsValid configs now _ (record { peers = tt; distinct = tt })

see_connection-IsPeer :
    (address : SocketAddr) (now peer_id : ℕ) (peer : Peer)
    → IsPeer now peer_id peer
    → IsPeer now peer_id (see_connection address now peer)
unfolding see_connection
see_connection-IsPeer address now peer_id peer v =
    elim (Option-cases (HashMap.get SocketAddr-discrete address peer.connections)) [
      | inl new ↦ rw (new, see_connection) (insert_connection-IsPeer address now peer_id peer v)
      | inr (t, old) ↦
          rw (old, see_connection)
            (record {
              seen =
                  update-AllEntries SocketAddr-discrete _ address _ peer.connections
                    (λ _ _. omega arith) v.seen;
              distinct =
                  update-IsDistinct SocketAddr-discrete address _ peer.connections v.distinct;
              counter = v.counter;
              sequencer = v.sequencer;
            })
    ]

-- A write to one peer that keeps the peer's invariant keeps that of the list.
update-IsValid :
    (peer_id now : ℕ) (f : Peer → Peer) (list : PeerList)
    → ((peer : Peer) → IsPeer now peer_id peer → IsPeer now peer_id (f peer))
    → IsValid now list
    → IsValid now (record list { peers = HashMap.update ℕ_discrete peer_id f list.peers })
update-IsValid peer_id now f list h v = record {
  peers = update-AllEntries ℕ_discrete (IsPeer now) peer_id f list.peers h v.peers;
  distinct = update-IsDistinct ℕ_discrete peer_id f list.peers v.distinct;
}

pub add_peer-IsValid :
    (peer_id : ℕ) (address : SocketAddr) (now : ℕ) (list : PeerList)
    → IsValid now list
    → IsValid now (add_peer peer_id address now list)
unfolding add_peer
add_peer-IsValid peer_id address now list v =
    elim (Option-cases (HashMap.get ℕ_discrete peer_id list.peers)) [
      | inl new ↦
          rw (new, add_peer)
            (record {
              peers =
                  insert-AllEntries ℕ_discrete (IsPeer now) peer_id _ list.peers
                    (insert_connection-IsPeer address now peer_id _ (new_peer-IsPeer now peer_id))
                    v.peers;
              distinct = insert-IsDistinct ℕ_discrete peer_id _ list.peers v.distinct;
            })
      | inr (peer, old) ↦
          rw (old, add_peer)
            (update-IsValid peer_id now _ list (see_connection-IsPeer address now peer_id) v)
    ]

pub set_peer_sequencer-IsValid :
    (peer_id now : ℕ) (s : Sequencer) (list : PeerList)
    → IsPeerSequencer now peer_id s
    → IsValid now list
    → IsValid now (set_peer_sequencer peer_id s list)
unfolding set_peer_sequencer
set_peer_sequencer-IsValid peer_id now s list h v =
    update-IsValid peer_id now _ list
      (λ peer p. record {
        seen = p.seen;
        distinct = p.distinct;
        counter = p.counter;
        sequencer = h;
      })
      v

pub increment_peer_tx_counter-IsValid :
    (peer_id now : ℕ) (list : PeerList)
    → IsValid now list
    → IsValid now (increment_peer_tx_counter peer_id list)
unfolding increment_peer_tx_counter increment_tx_counter
increment_peer_tx_counter-IsValid peer_id now list v =
    update-IsValid peer_id now _ list
      (λ peer p. record {
        seen = p.seen;
        distinct = p.distinct;
        counter = omega arith;
        sequencer = p.sequencer;
      })
      v

IsPeer-mono :
    (now later peer_id : ℕ) (peer : Peer)
    → now ≤ later
    → IsPeer now peer_id peer
    → IsPeer later peer_id peer
IsPeer-mono now later peer_id peer h v = record {
  seen = AllEntries-mono _ _ peer.connections (λ _ _ le. omega arith) v.seen;
  distinct = v.distinct;
  counter = v.counter;
  sequencer = record { valid = v.sequencer.valid; clock = omega arith; owned = v.sequencer.owned };
}

-- Time passes.
pub IsValid-mono :
    (now later : ℕ) (list : PeerList) → now ≤ later → IsValid now list → IsValid later list
IsValid-mono now later list h v = record {
  peers =
      AllEntries-mono _ _ list.peers (λ peer_id peer. IsPeer-mono now later peer_id peer h) v.peers;
  distinct = v.distinct;
}
