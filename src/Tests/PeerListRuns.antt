-- ===== src/Tests/PeerListRuns.antt =====
-- Tests of src/peer_list.rs.
use mpconn.Base.{ℕ, ◌≡◌, ite, ◌+◌, ◌%◌, ◌^◌, some, arith, ℕ_discrete, done, ◌>>=◌, Returns}
use mpconn.Net.{SocketAddr, SocketAddr-discrete}
use mpconn.PeerList
use mpconn.PeerList.{PeerList}
use mpconn.PeerList.Validity
use mpconn.PeerList.Connections.{last_seen, last_seen-add_peer}
use mpconn.PeerList.Counters.{get_peer_tx_counter-increment}
use mpconn.PeerList.Pruning.{fresh_at, prune_stale_peers-last_seen}
use mpconn.Tests.Values.{home, away, settings}

-- Peer 7 with two connections, seen at the time 0.
abbrev seeded : PeerList
seeded = PeerList.new (some settings.peers) 0

last_seen-add_peer_example :
    last_seen 7 away (PeerList.add_peer 7 home 50 seeded)
    ≡ ite
        (ℕ_discrete 7 7)
        (ite (SocketAddr-discrete home away) (some 50) (last_seen 7 away seeded))
        (last_seen 7 away seeded)
last_seen-add_peer_example = last_seen-add_peer 7 7 home away 50 seeded

get_peer_tx_counter-increment_example :
    PeerList.get_peer_tx_counter 7 (PeerList.increment_peer_tx_counter 7 seeded) ≡ (
      PeerList.get_peer_tx_counter 7 seeded >>= λ counter.
      done (ite (ℕ_discrete 7 7) ((counter + 1) % 2 ^ 64) counter))
get_peer_tx_counter-increment_example = get_peer_tx_counter-increment 7 7 seeded

prune_stale_peers-last_seen_example :
    Returns
      (λ after.
        ((j : ℕ) (b : SocketAddr)
          → last_seen j b after ≡ fresh_at 40 seeded.stale_time_limit (last_seen j b seeded))
        × (PeerList.get_peer_ids after ≡ PeerList.get_peer_ids seeded)
        × ((j : ℕ) → PeerList.get_peer_sequencer j after ≡ PeerList.get_peer_sequencer j seeded))
      (PeerList.prune_stale_peers 40 seeded)
prune_stale_peers-last_seen_example =
    prune_stale_peers-last_seen 40 seeded (
      Validity.IsValid-mono 0 40 seeded (omega arith)
        (Validity.new-IsValid (some settings.peers) 0))
