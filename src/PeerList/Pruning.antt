-- ===== src/PeerList/Pruning.antt =====
-- `prune_stale_peers` of src/peer_list.rs.
use mpconn.Base.{
  ℕ, ◌-◌, ◌≤◌, ◌≡◌, refl, Bool, Option-cases, inl, inr, Option, none, some, [], ◌∷◌, ltb,
  if◌then◌else◌, ℕ_discrete, arith, done, Returns,
}
use mathlib.Core.Option
use mpconn.Base.HashMap
use mpconn.Base.HashMap.{
  HashMap, AllEntries, IsDistinct, retain, get-retain, get-AllEntries, retain-AllEntries,
  retain-IsDistinct, keys,
}
use mpconn.Net.{SocketAddr, SocketAddr-discrete}
use mpconn.PeerList.{
  Peer, PeerList, retain_fresh, prune_peers, prune_stale_peers, get_peer_ids, get_peer_sequencer,
}
use mpconn.PeerList.Validity.{IsPeer, IsValid}
use mpconn.PeerList.Counters.{IsKnown}
use mpconn.PeerList.Connections.{last_seen, connection_seen}

abbrev is_fresh : ℕ → ℕ → ℕ → Bool
is_fresh now limit lastseen = ltb (now - lastseen) limit

-- With a clock that is not behind, the loop is a filter.
retain_fresh-retain :
    (now limit : ℕ) (m : HashMap SocketAddr ℕ)
    → AllEntries (λ address lastseen. lastseen ≤ now) m
    → retain_fresh now limit m ≡ done (retain (is_fresh now limit) m)
unfolding retain_fresh retain
retain_fresh-retain now limit [] h = refl
retain_fresh-retain now limit ((address, lastseen) ∷ m) h =
    ground (arith, retain_fresh-retain now limit m h.1)

abbrev prune_peer : ℕ → ℕ → Peer → Peer
prune_peer now limit peer = record peer {
  connections = retain (is_fresh now limit) peer.connections;
}

abbrev pruned : ℕ → ℕ → HashMap ℕ Peer → HashMap ℕ Peer
pruned now limit [] = []
pruned now limit ((peer_id, peer) ∷ m) = (peer_id, prune_peer now limit peer) ∷ pruned now limit m

prune_peers-pruned :
    (now limit : ℕ) (m : HashMap ℕ Peer)
    → AllEntries (IsPeer now) m
    → prune_peers now limit m ≡ done (pruned now limit m)
unfolding prune_peers
prune_peers-pruned now limit [] h = refl
prune_peers-pruned now limit ((peer_id, peer) ∷ m) h =
    rw (retain_fresh-retain now limit peer.connections h.0.seen, prune_peers-pruned now limit m h.1)

get-pruned :
    (now limit j : ℕ) (m : HashMap ℕ Peer)
    → HashMap.get ℕ_discrete j (pruned now limit m)
      ≡ Option.map (prune_peer now limit) (HashMap.get ℕ_discrete j m)
unfolding HashMap.get
get-pruned now limit j [] = refl
get-pruned now limit j ((peer_id, peer) ∷ m) = ground (arith, get-pruned now limit j m)

keys-pruned : (now limit : ℕ) (m : HashMap ℕ Peer) → keys (pruned now limit m) ≡ keys m
keys-pruned now limit [] = refl
keys-pruned now limit ((peer_id, peer) ∷ m) = rw (keys-pruned now limit m)

-- A reading that is fresh at `now`.
abbrev pub fresh_at : ℕ → ℕ → Option ℕ → Option ℕ
fresh_at now limit none = none
fresh_at now limit (some lastseen) = if ltb (now - lastseen) limit then some lastseen else none

get-prune_peer :
    (now limit : ℕ) (b : SocketAddr) (peer : Peer)
    → IsDistinct SocketAddr-discrete peer.connections
    → HashMap.get SocketAddr-discrete b (prune_peer now limit peer).connections
      ≡ fresh_at now limit (HashMap.get SocketAddr-discrete b peer.connections)
get-prune_peer now limit b peer h =
    ground (arith, get-retain SocketAddr-discrete (is_fresh now limit) b peer.connections h)

seen-prune_peer :
    (now limit : ℕ) (b : SocketAddr) (m : HashMap ℕ Peer) (j : ℕ)
    → AllEntries (IsPeer now) m
    → connection_seen b (Option.map (prune_peer now limit) (HashMap.get ℕ_discrete j m))
      ≡ fresh_at now limit (connection_seen b (HashMap.get ℕ_discrete j m))
unfolding connection_seen
seen-prune_peer now limit b m j h = elim (Option-cases (HashMap.get ℕ_discrete j m)) [
  | inl e ↦ rw e
  | inr (peer, e) ↦ rw e (
      get-prune_peer now limit b peer
        (get-AllEntries ℕ_discrete (IsPeer now) j peer m h e).distinct)
]

-- On a valid list `prune_stale_peers` returns. A connection that was last seen less than
-- `stale_time_limit` before `now` keeps its time, every other connection is gone, no peer is dropped,
-- and each peer keeps its sequencer.
pub prune_stale_peers-last_seen :
    (now : ℕ) (list : PeerList)
    → IsValid now list
    → Returns
        (λ after.
          ((j : ℕ) (b : SocketAddr)
            → last_seen j b after ≡ fresh_at now list.stale_time_limit (last_seen j b list))
          × (get_peer_ids after ≡ get_peer_ids list)
          × ((j : ℕ) → get_peer_sequencer j after ≡ get_peer_sequencer j list))
        (prune_stale_peers now list)
unfolding prune_stale_peers last_seen get_peer_ids get_peer_sequencer
prune_stale_peers-last_seen now list v =
    let limit = list.stale_time_limit in
    rw (prune_peers-pruned now limit list.peers v.peers) (
      (λ j b.
          rw (get-pruned now limit j list.peers)
            (seen-prune_peer now limit b list.peers j v.peers)),
      keys-pruned now limit list.peers,
      (λ j. ground (arith, get-pruned now limit j list.peers)),
    )

pruned-peers :
    (now limit : ℕ) (m : HashMap ℕ Peer)
    → AllEntries (IsPeer now) m
    → AllEntries (IsPeer now) (pruned now limit m)
pruned-peers now limit [] h = tt
pruned-peers now limit ((peer_id, peer) ∷ m) h = (
  record {
    seen = retain-AllEntries _ (is_fresh now limit) peer.connections h.0.seen;
    distinct =
        retain-IsDistinct SocketAddr-discrete (is_fresh now limit) peer.connections h.0.distinct;
    counter = h.0.counter;
    sequencer = h.0.sequencer;
  },
  pruned-peers now limit m h.1,
)

pruned-IsDistinct :
    (now limit : ℕ) (m : HashMap ℕ Peer)
    → IsDistinct ℕ_discrete m
    → IsDistinct ℕ_discrete (pruned now limit m)
pruned-IsDistinct now limit [] h = tt
pruned-IsDistinct now limit ((peer_id, peer) ∷ m) h =
    (rw (get-pruned now limit peer_id m, h.0), pruned-IsDistinct now limit m h.1)

pub prune_stale_peers-IsValid :
    (now : ℕ) (list : PeerList)
    → IsValid now list
    → Returns
        (λ after. IsValid now after × ((j : ℕ) → IsKnown j list → IsKnown j after))
        (prune_stale_peers now list)
unfolding prune_stale_peers HashMap.contains_key
prune_stale_peers-IsValid now list v =
    let limit = list.stale_time_limit in
    rw (prune_peers-pruned now limit list.peers v.peers) (
      record {
        peers = pruned-peers now limit list.peers v.peers;
        distinct = pruned-IsDistinct now limit list.peers v.distinct;
      },
      (λ j h. ground (arith, get-pruned now limit j list.peers, h)),
    )
