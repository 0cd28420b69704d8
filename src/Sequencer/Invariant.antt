-- ===== src/Sequencer/Invariant.antt =====
-- The invariant of src/sequencer.rs.
use mpconn.Base.{ℕ, suc, ◌+◌, ◌≤◌, ◌<◌, ◌%◌, ◌^◌, ◌≡◌, refl, [], ◌∷◌, arith, subst}
use mpconn.Base.BTreeMap.{BTreeMap, Above, AllEntries, or_insert-Above, or_insert-AllEntries}
use mpconn.Messages.{Packet}
use mpconn.Sequencer.{Sequencer, new, take_next, get_next_packet, insert_packet, advance_queue}

-- An entry stands under its packet's sequence number, which is a `u64`.
abbrev pub IsEntry : ℕ → Packet → Type 0
IsEntry key pkt = (key ≡ pkt.seq) × (key < 2 ^ 64)

-- The queue is in order and holds nothing that was due before.
pub record IsValid (s : Sequencer) : Type 0 where
  pub ordered : Above s.next_seq s.packet_queue
  pub entries : AllEntries IsEntry s.packet_queue
  pub counter : s.next_seq < 2 ^ 64

pub new-IsValid : (deadline now : ℕ) → IsValid (new deadline now)
unfolding new
new-IsValid deadline now = record { ordered = tt; entries = tt; counter = omega arith }

pub insert_packet-IsValid :
    (pkt : Packet) (s : Sequencer) → pkt.seq < 2 ^ 64 → IsValid s → IsValid (insert_packet pkt s)
unfolding insert_packet
insert_packet-IsValid pkt s h v = ground (
  arith,
  or_insert-Above s.next_seq pkt.seq pkt s.packet_queue,
  or_insert-AllEntries IsEntry pkt.seq pkt s.packet_queue (refl, h) v.entries,
)

pub advance_queue-IsValid : (s : Sequencer) → IsValid s → IsValid (advance_queue s)
unfolding advance_queue
advance_queue-IsValid s v = ground arith

-- What is due next comes off the queue. Past the last `u64` the queue is empty, so wrapping is no
-- exception.
Above-last : (n : ℕ) (q : BTreeMap Packet) → 2 ^ 64 ≤ n → Above n q → AllEntries IsEntry q → q ≡ []
Above-last n [] h a e = refl
Above-last n ((key, pkt) ∷ q) h a e = absurd (omega arith)

pub wrapped-Above :
    (n : ℕ) (q : BTreeMap Packet)
    → n < 2 ^ 64
    → Above (suc n) q
    → AllEntries IsEntry q
    → Above ((n + 1) % 2 ^ 64) q
wrapped-Above n [] h a e = tt
wrapped-Above n ((key, pkt) ∷ q) h a e = (omega arith, a.1)

take_next-IsValid :
    (now : ℕ) (q : BTreeMap Packet) (s : Sequencer)
    → s.packet_queue ≡ q
    → IsValid s
    → IsValid (take_next now q s).0
unfolding take_next
take_next-IsValid now [] s e v = v
take_next-IsValid now ((key, pkt) ∷ q) s e v =
    let order = subst (Above s.next_seq) e v.ordered in
    let entry = subst (AllEntries IsEntry) e v.entries in
    ground (arith, wrapped-Above key q (omega arith) order.1 entry.1)

get_next_packet-IsValid : (now : ℕ) (s : Sequencer) → IsValid s → IsValid (get_next_packet now s).0
unfolding get_next_packet
get_next_packet-IsValid now s v = take_next-IsValid now s.packet_queue s refl v
