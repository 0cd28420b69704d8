-- ===== src/Sequencer/Copies.antt =====
-- src/sequencer.rs and the copies of a packet.
use mpconn.Base.{
  ℕ, suc, ◌+◌, ◌<◌, ◌%◌, ◌^◌, ◌≡◌, refl, ◌∙◌, ap, Bool-cases, inl, inr, ◌⊎◌, true, false, none,
  some, List, [], ◌∷◌, leb, ◌==◌, arith,
}
use mpconn.Base.BTreeMap
use mpconn.Base.BTreeMap.{BTreeMap, Above, get-or_insert, get_below}
use mpconn.Messages.{Packet}
use mpconn.Sequencer.{Sequencer, insert_packet, have_next_packet}
use mpconn.Sequencer.Deliver.{consecutive, drained, have_next_packet-drained}
use mpconn.Sequencer.Order.{IsEarly, Fits, next, next-Fits, insert_packet-Fits, drained-Fits}

-- The number was given out, or waits in the queue.
abbrev pub Has : ℕ → Sequencer → Type 0
Has seq s = (seq < s.next_seq) ⊎ ((pkt : Packet) × (BTreeMap.get seq s.packet_queue ≡ some pkt))

or_insert_again :
    (n k : ℕ) (v w : Packet) (m : BTreeMap Packet)
    → Above n m
    → BTreeMap.get k m ≡ some w
    → BTreeMap.or_insert k v m ≡ m
unfolding BTreeMap.get BTreeMap.or_insert
or_insert_again n k v w [] a h = cc
or_insert_again n k v w ((j, x) ∷ m) a h =
    ground (arith, or_insert_again (suc j) k v w m a.1, get_below (suc j) k m)

insert_packet_again :
    (pkt : Packet) (s : Sequencer)
    → Above s.next_seq s.packet_queue
    → Has pkt.seq s
    → insert_packet pkt s ≡ s
unfolding insert_packet
insert_packet_again pkt s a (inl old) = ground arith
insert_packet_again pkt s a (inr (w, held)) =
    ground (arith, or_insert_again s.next_seq pkt.seq pkt w s.packet_queue a held)

insert_packet-Has :
    (pkt : Packet) (s : Sequencer)
    → Above s.next_seq s.packet_queue
    → Has pkt.seq (insert_packet pkt s)
unfolding insert_packet
insert_packet-Has pkt s a = elim (Bool-cases (leb s.next_seq pkt.seq)) [
  | inl due ↦ rw due (
      inr (
        elim (BTreeMap.get pkt.seq s.packet_queue) [ none ↦ pkt | some w ↦ w ],
        ground (arith, get-or_insert s.next_seq pkt.seq pkt.seq pkt s.packet_queue a),
      ))
  | inr old ↦ rw old (inl (ground arith))
]

next-Has :
    (now seq key : ℕ) (pkt : Packet) (q : BTreeMap Packet) (s : Sequencer)
    → (key == s.next_seq) ≡ true
    → IsEarly key pkt
    → Has seq (record s { packet_queue = (key, pkt) ∷ q })
    → Has seq (record (next now key pkt q s) { packet_queue = q })
unfolding BTreeMap.get
next-Has now seq key pkt q s due early (inl old) = inl (ground arith)
next-Has now seq key pkt q s due early (inr (w, held)) = elim (Bool-cases (key == seq)) [
  | inl here ↦ inl (ground arith)
  | inr there ↦ inr (w, ground arith)
]

drained-Has :
    (now seq : ℕ) (q : BTreeMap Packet) (s : Sequencer)
    → Fits s.next_seq q
    → Has seq (record s { packet_queue = q })
    → Has seq (drained now q s)
unfolding drained BTreeMap.get
drained-Has now seq [] s f h = h
drained-Has now seq ((key, pkt) ∷ q) s f h = elim (Bool-cases (key == s.next_seq)) [
  | inl due ↦ rw due (
      drained-Has now seq q (next now key pkt q s) (next-Fits now key pkt q s due f)
        (next-Has now seq key pkt q s due f.1.0 h))
  | inr gap ↦ rw gap h
]

-- Nothing is due, so the loop does nothing.
consecutive_idle :
    (now : ℕ) (q : BTreeMap Packet) (s : Sequencer)
    → have_next_packet (record s { packet_queue = q }) ≡ false
    → (consecutive s.next_seq q ≡ []) × (drained now q s ≡ record s { packet_queue = q })
unfolding consecutive drained have_next_packet
consecutive_idle now [] s h = (refl, refl)
consecutive_idle now ((key, pkt) ∷ q) s h = (rw h, rw h)

-- The sequencer after a packet was inserted and the loop ran.
abbrev pub received : ℕ → Packet → Sequencer → Sequencer
received now pkt s = drained now (insert_packet pkt s).packet_queue (insert_packet pkt s)

abbrev pub given : Packet → Sequencer → List Packet
given pkt s = consecutive (insert_packet pkt s).next_seq (insert_packet pkt s).packet_queue

-- Once a packet numbered n was received, another one numbered n gives out nothing and leaves the
-- sequencer as it is, if all numbers are below the last `u64`.
pub received_again :
    (now later : ℕ) (pkt copy : Packet) (s : Sequencer)
    → Fits s.next_seq s.packet_queue
    → pkt.seq + 1 < 2 ^ 64
    → copy.seq ≡ pkt.seq
    → (given copy (received now pkt s) ≡ [])
      × (received later copy (received now pkt s) ≡ received now pkt s)
received_again now later pkt copy s f early e =
    let s' = insert_packet pkt s in
    let t = received now pkt s in
    let fits' = insert_packet-Fits pkt s early f in
    let has : Has copy.seq t =
      rw e (drained-Has now pkt.seq s'.packet_queue s' fits' (insert_packet-Has pkt s f.0)) in
    let same : insert_packet copy t ≡ t =
      insert_packet_again copy t (drained-Fits now s'.packet_queue s' fits').0 has in
    let idle = consecutive_idle later t.packet_queue t (have_next_packet-drained now s') in
    (
      ap (λ (x : Sequencer). consecutive x.next_seq x.packet_queue) same ∙ idle.0,
      ap (λ (x : Sequencer). drained later x.packet_queue x) same ∙ idle.1,
    )

or_insert-head :
    (n : ℕ) (pkt : Packet) (q : BTreeMap Packet)
    → Above (suc n) q
    → BTreeMap.or_insert n pkt q ≡ (n, pkt) ∷ q
unfolding BTreeMap.or_insert
or_insert-head n pkt [] a = refl
or_insert-head n pkt ((j, w) ∷ q) a = ground arith

waits-Above :
    (s : Sequencer) (q : BTreeMap Packet)
    → Above s.next_seq q
    → have_next_packet (record s { packet_queue = q }) ≡ false
    → Above (suc s.next_seq) q
unfolding have_next_packet
waits-Above s [] a idle = tt
waits-Above s ((j, w) ∷ q) a idle = (ground (arith, idle, a.0), a.1)

-- A sequencer that waits for a packet gives it out when it arrives, and what waited behind it.
pub given-next :
    (pkt : Packet) (s : Sequencer)
    → Above s.next_seq s.packet_queue
    → have_next_packet s ≡ false
    → pkt.seq ≡ s.next_seq
    → given pkt s ≡ pkt ∷ consecutive ((pkt.seq + 1) % 2 ^ 64) s.packet_queue
unfolding insert_packet consecutive
given-next pkt s a idle e =
    ground
      (arith, e, or_insert-head s.next_seq pkt s.packet_queue (waits-Above s s.packet_queue a idle))
