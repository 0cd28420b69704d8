-- ===== src/PeerList/Delivery.antt =====
-- A peer's sequencer under the operations and the loop that src/connection_manager.rs runs on it.
use mpconn.Base.{
  ℕ, ◌+◌, ◌<◌, ◌%◌, ◌^◌, ◌≡◌, subst, ==_iff, Bool-cases, inl, inr, true, Option-cases, some, List,
  [], ◌∷◌, All, ◌==◌, ℕ_discrete, length, arith, Outcome, Returns, >>=-Returns,
}
use mpconn.Base.BTreeMap
use mpconn.Base.BTreeMap.{BTreeMap, AllEntries, or_insert-AllEntries}
use mpconn.Base.HashMap
use mpconn.Base.HashMap.{get-AllEntries}
use mpconn.Messages.{Packet}
use mpconn.Sequencer.{Sequencer, insert_packet, advance_queue}
use mpconn.Sequencer.Invariant
use mpconn.Sequencer.Invariant.{wrapped-Above}
use mpconn.Sequencer.Deliver.{deliver, each, consecutive, drained, deliver-consecutive}
use mpconn.PeerList.{PeerList, get_peer_sequencer}
use mpconn.PeerList.Validity.{IsOwned, IsPeerSequencer, IsPeer, IsValid}

module _ (now peer_id : ℕ) where
  pub insert_packet-IsPeerSequencer :
      (pkt : Packet) (s : Sequencer)
      → pkt.seq < 2 ^ 64
      → pkt.peer_id ≡ peer_id
      → IsPeerSequencer now peer_id s
      → IsPeerSequencer now peer_id (insert_packet pkt s)
  unfolding insert_packet
  insert_packet-IsPeerSequencer pkt s range owner v = record {
    valid = Invariant.insert_packet-IsValid pkt s range v.valid;
    clock = ground (arith, v.clock);
    owned = ground (
      arith,
      v.owned,
      or_insert-AllEntries (IsOwned peer_id) pkt.seq pkt s.packet_queue owner v.owned,
    );
  }

  pub advance_queue-IsPeerSequencer :
      (s : Sequencer)
      → IsPeerSequencer now peer_id s
      → IsPeerSequencer now peer_id (advance_queue s)
  unfolding advance_queue
  advance_queue-IsPeerSequencer s v = record {
    valid = Invariant.advance_queue-IsValid s v.valid;
    clock = ground (arith, v.clock);
    owned = ground (arith, v.owned);
  }

  -- The state after one round of the loop.
  abbrev after_round : BTreeMap Packet → Sequencer → Sequencer
  after_round q s = record s {
    packet_queue = q;
    next_seq = (s.next_seq + 1) % 2 ^ 64;
    last_update = now;
  }

  after_round-IsPeerSequencer :
      (key : ℕ) (pkt : Packet) (q : BTreeMap Packet) (s : Sequencer)
      → (key == s.next_seq) ≡ true
      → IsPeerSequencer now peer_id (record s { packet_queue = (key, pkt) ∷ q })
      → IsPeerSequencer now peer_id (after_round q s)
  after_round-IsPeerSequencer key pkt q s due v = record {
    valid = record {
      ordered =
          subst (λ n. BTreeMap.Above ((n + 1) % 2 ^ 64) q) ((==_iff key s.next_seq).0 due)
            (wrapped-Above key q v.valid.entries.0.1 v.valid.ordered.1 v.valid.entries.1);
      entries = v.valid.entries.1;
      counter = omega arith;
    };
    clock = omega arith;
    owned = v.owned.1;
  }

  drained_queue :
      (q : BTreeMap Packet) (s : Sequencer)
      → IsPeerSequencer now peer_id (record s { packet_queue = q })
      → IsPeerSequencer now peer_id (drained now q s)
        × All (λ pkt. pkt.peer_id ≡ peer_id) (consecutive s.next_seq q)
  unfolding drained consecutive
  drained_queue [] s v = (v, tt)
  drained_queue ((key, pkt) ∷ q) s v = elim (Bool-cases (key == s.next_seq)) [
    | inl due ↦
        let rest =
          drained_queue q (record s { next_seq = (s.next_seq + 1) % 2 ^ 64; last_update = now })
            (after_round-IsPeerSequencer key pkt q s due v) in
        rw due (rest.0, (v.owned.0, rest.1))
    | inr gap ↦ rw gap (v, tt)
  ]

  module _ {S : Type 0} (Q : S → Type 0) (body : Packet → S → Outcome S)
      (keep : (pkt : Packet) (st : S)
        → pkt.peer_id ≡ peer_id
        → Q st
        → Returns Q (body pkt st)) where
    each-Returns :
        (pkts : List Packet) (st : S)
        → All (λ pkt. pkt.peer_id ≡ peer_id) pkts
        → Q st
        → Returns Q (each body pkts st)
    unfolding each
    each-Returns [] st h q = q
    each-Returns (pkt ∷ pkts) st h q =
        >>=-Returns Q Q (body pkt st) (each body pkts) (keep pkt st h.0 q)
          (λ st' q'. each-Returns pkts st' h.1 q')

    -- The rule of the loop: it returns, it keeps the sequencer's invariant, and it keeps what its body
    -- keeps on packets of this peer.
    pub deliver-Returns :
        (s : Sequencer) (st : S)
        → IsPeerSequencer now peer_id s
        → Q st
        → Returns
            (λ r. IsPeerSequencer now peer_id r.0 × Q r.1)
            (deliver (length s.packet_queue) now body s st)
    deliver-Returns s st v q =
        let (after, owned) = drained_queue s.packet_queue s v in
        rw deliver-consecutive (
          >>=-Returns Q _ (each body (consecutive s.next_seq s.packet_queue) st) _
            (each-Returns (consecutive s.next_seq s.packet_queue) st owned q)
            (λ st' q'. (after, q')))

pub get_peer_sequencer-IsPeerSequencer :
    (now peer_id : ℕ) (s : Sequencer) (list : PeerList)
    → IsValid now list
    → get_peer_sequencer peer_id list ≡ some s
    → IsPeerSequencer now peer_id s
unfolding get_peer_sequencer
get_peer_sequencer-IsPeerSequencer now peer_id s list v h =
    elim (Option-cases (HashMap.get ℕ_discrete peer_id list.peers)) [
      | inl e ↦ absurd (ground (arith, e, h))
      | inr (peer, e) ↦
          let found = get-AllEntries ℕ_discrete (IsPeer now) peer_id peer list.peers v.peers e in
          subst (IsPeerSequencer now peer_id) (ground (arith, e, h)) found.sequencer
    ]
