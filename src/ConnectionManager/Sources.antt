-- ===== src/ConnectionManager/Sources.antt =====
-- Where the packets come from that src/connection_manager.rs writes to the local interface.
pub mod Handlers
pub mod Run
use mpconn.Base.{
  ℕ, ◌≡◌, refl, subst, All, Option, Option-cases, inl, inr, some, none, List, [], ◌∷◌, length,
  ℕ_discrete, arith, Outcome, Yields, >>=-Yields, >>=-Yields_always,
}
use mpconn.Base.HashMap
use mpconn.Base.HashMap.{HashMap, AllEntries, insert-AllEntries, update-AllEntries, get-AllEntries}
use mpconn.Messages.{Packet}
use mpconn.Net.{SocketAddr}
use mpconn.PeerList
use mpconn.PeerList.{PeerList, Peer}
use mpconn.Sequencer
use mpconn.Sequencer.{Sequencer}
use mpconn.Sequencer.Deliver.{deliver, each, consecutive, deliver-consecutive}
use mpconn.Sequencer.Genuine.{AllQueued, drained-AllQueued}
use mpconn.Settings.{PeerConfig}

module _ (P : Packet → Type 0) where
  -- Every packet that waits for the peer satisfies `P`.
  abbrev pub IsHolding : ℕ → Peer → Type 0
  IsHolding peer_id peer = AllQueued P peer.sequencer.packet_queue

  -- The same for each peer.
  abbrev pub Holds : PeerList → Type 0
  Holds list = AllEntries IsHolding list.peers

  insert_connections-queue :
      (addresses : List SocketAddr) (now : ℕ) (peer : Peer)
      → (PeerList.insert_connections addresses now peer).sequencer ≡ peer.sequencer
  unfolding PeerList.insert_connections PeerList.insert_connection
  insert_connections-queue [] now peer = refl
  insert_connections-queue (address ∷ addresses) now peer = insert_connections-queue addresses now _

  insert_configs-Holds :
      (configs : List PeerConfig) (now : ℕ) (list : PeerList)
      → Holds list
      → Holds (PeerList.insert_configs configs now list)
  unfolding PeerList.insert_configs PeerList.new_peer Sequencer.new
  insert_configs-Holds [] now list h = h
  insert_configs-Holds (config ∷ configs) now list h = insert_configs-Holds configs now _ (
      insert-AllEntries ℕ_discrete IsHolding config.id _ list.peers
        (rw (insert_connections-queue config.addresses now (PeerList.new_peer now)) tt) h)

  pub new-Holds : (configs : Option (List PeerConfig)) (now : ℕ) → Holds (PeerList.new configs now)
  unfolding PeerList.new
  new-Holds none now = tt
  new-Holds (some configs) now = insert_configs-Holds configs now _ tt

  see_connection-queue :
      (address : SocketAddr) (now : ℕ) (peer : Peer)
      → (PeerList.see_connection address now peer).sequencer ≡ peer.sequencer
  unfolding PeerList.see_connection PeerList.insert_connection
  see_connection-queue address now peer = ground arith

  pub add_peer-Holds :
      (peer_id : ℕ) (address : SocketAddr) (now : ℕ) (list : PeerList)
      → Holds list
      → Holds (PeerList.add_peer peer_id address now list)
  unfolding PeerList.add_peer PeerList.insert_connection PeerList.new_peer Sequencer.new
  add_peer-Holds peer_id address now list h =
      elim (Option-cases (HashMap.get ℕ_discrete peer_id list.peers)) [
        | inl new ↦
            rw (new, PeerList.add_peer)
              (insert-AllEntries ℕ_discrete IsHolding peer_id _ list.peers tt h)
        | inr (peer, old) ↦
            rw (old, PeerList.add_peer)
              (update-AllEntries ℕ_discrete IsHolding peer_id _ list.peers
                (λ p q. rw (see_connection-queue address now p) q) h)
      ]

  pub set_peer_sequencer-Holds :
      (peer_id : ℕ) (s : Sequencer) (list : PeerList)
      → AllQueued P s.packet_queue
      → Holds list
      → Holds (PeerList.set_peer_sequencer peer_id s list)
  unfolding PeerList.set_peer_sequencer
  set_peer_sequencer-Holds peer_id s list q h =
      update-AllEntries ℕ_discrete IsHolding peer_id _ list.peers (λ p _. q) h

  pub increment_peer_tx_counter-Holds :
      (peer_id : ℕ) (list : PeerList)
      → Holds list
      → Holds (PeerList.increment_peer_tx_counter peer_id list)
  unfolding PeerList.increment_peer_tx_counter PeerList.increment_tx_counter
  increment_peer_tx_counter-Holds peer_id list h =
      update-AllEntries ℕ_discrete IsHolding peer_id _ list.peers (λ p q. q) h

  prune_peers-Holds :
      (now limit : ℕ) (peers : HashMap ℕ Peer)
      → AllEntries IsHolding peers
      → Yields (λ pruned. AllEntries IsHolding pruned) (PeerList.prune_peers now limit peers)
  unfolding PeerList.prune_peers
  prune_peers-Holds now limit [] h = tt
  prune_peers-Holds now limit ((peer_id, peer) ∷ rest) h =
      >>=-Yields_always _ (PeerList.retain_fresh now limit peer.connections) _ (λ kept.
        >>=-Yields _ _ (PeerList.prune_peers now limit rest) _
          (prune_peers-Holds now limit rest h.1) (λ pruned q. (h.0, q)))

  pub prune_stale_peers-Holds :
      (now : ℕ) (list : PeerList) → Holds list → Yields Holds (PeerList.prune_stale_peers now list)
  unfolding PeerList.prune_stale_peers
  prune_stale_peers-Holds now list h =
      >>=-Yields _ Holds (PeerList.prune_peers now list.stale_time_limit list.peers) _
        (prune_peers-Holds now list.stale_time_limit list.peers h) (λ pruned q. q)

  pub get_peer_sequencer-AllQueued :
      (peer_id : ℕ) (s : Sequencer) (list : PeerList)
      → Holds list
      → PeerList.get_peer_sequencer peer_id list ≡ some s
      → AllQueued P s.packet_queue
  unfolding PeerList.get_peer_sequencer
  get_peer_sequencer-AllQueued peer_id s list h found =
      elim (Option-cases (HashMap.get ℕ_discrete peer_id list.peers)) [
        | inl e ↦ absurd (ground (arith, e, found))
        | inr (peer, e) ↦
            let same : peer.sequencer ≡ s = ground (arith, e, found) in
            subst (λ (t : Sequencer). AllQueued P t.packet_queue) same
              (get-AllEntries ℕ_discrete IsHolding peer_id peer list.peers h e)
      ]

  -- What the loop keeps, if its body keeps it on packets that satisfy `P`.
  module _ {S : Type 0} (Q : S → Type 0) (body : Packet → S → Outcome S)
      (keep : (pkt : Packet) (st : S) → P pkt → Q st → Yields Q (body pkt st)) where
    each-Yields : (pkts : List Packet) (st : S) → All P pkts → Q st → Yields Q (each body pkts st)
    unfolding each
    each-Yields [] st h q = q
    each-Yields (pkt ∷ pkts) st h q =
        >>=-Yields Q Q (body pkt st) (each body pkts) (keep pkt st h.0 q)
          (λ st' q'. each-Yields pkts st' h.1 q')

    pub deliver-Yields :
        (now : ℕ) (s : Sequencer) (st : S)
        → AllQueued P s.packet_queue
        → Q st
        → Yields
            (λ r. AllQueued P r.0.packet_queue × Q r.1)
            (deliver (length s.packet_queue) now body s st)
    deliver-Yields now s st h q =
        let (out, left) = drained-AllQueued P now s.packet_queue s h in
        rw deliver-consecutive (
          >>=-Yields Q _ (each body (consecutive s.next_seq s.packet_queue) st) _
            (each-Yields (consecutive s.next_seq s.packet_queue) st out q) (λ st' q'. (left, q')))
