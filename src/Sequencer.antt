-- ===== src/Sequencer.antt =====
-- src/sequencer.rs: the queue that puts the packets of one peer back in order.
-- Times are nanoseconds; the caller passes the reading of the clock. `next_seq` is a `u64`, which
-- wraps in the release build that the repository's build scripts make.
pub mod Invariant
pub mod Deliver
pub mod History
pub mod Order
pub mod Stream
pub mod Reordering
pub mod Copies
pub mod Timer
pub mod Liveness
pub mod Genuine
pub mod Abstract
use mpconn.Base.{
  ℕ, ◌+◌, ◌-◌, ◌%◌, ◌^◌, Bool, false, Option, none, some, [], ◌∷◌, ltb, leb, ◌==◌, if◌then◌else◌,
  length, Outcome, done, panic, clock_went_backwards,
}
use mpconn.Base.BTreeMap
use mpconn.Base.BTreeMap.{BTreeMap}
use mpconn.Messages.{Packet}

pub record Sequencer : Type 0 where
  pub packet_queue : BTreeMap Packet
  pub next_seq : ℕ
  pub deadline : ℕ
  pub last_update : ℕ

unfoldable pub new : ℕ → ℕ → Sequencer
new deadline now = record {
  packet_queue = [];
  next_seq = 0;
  deadline = deadline;
  last_update = now;
}

unfoldable pub set_last_update : ℕ → Sequencer → Sequencer
set_last_update now s = record s { last_update = now }

-- The branches of `get_next_packet`, by the entries of the queue.
unfoldable pub take_next : ℕ → BTreeMap Packet → Sequencer → Sequencer × Option Packet
unfolding set_last_update
take_next now [] s = (s, none)
take_next now ((key, pkt) ∷ rest) s =
    if key == s.next_seq
    then (
      set_last_update now (record s { packet_queue = rest; next_seq = (s.next_seq + 1) % 2 ^ 64 }),
      some pkt,
    )
    else (s, none)

unfoldable pub get_next_packet : ℕ → Sequencer → Sequencer × Option Packet
unfolding take_next
get_next_packet now s = take_next now s.packet_queue s

unfoldable pub insert_packet : Packet → Sequencer → Sequencer
insert_packet pkt s =
    if leb s.next_seq pkt.seq
    then record s { packet_queue = BTreeMap.or_insert pkt.seq pkt s.packet_queue }
    else s

unfoldable pub advance_queue : Sequencer → Sequencer
advance_queue s = elim (BTreeMap.first_entry s.packet_queue) [
  | none ↦ s
  | some (key, _) ↦ record s { next_seq = key }
]

unfoldable pub get_queue_length : Sequencer → ℕ
get_queue_length s = length s.packet_queue

unfoldable pub have_next_packet : Sequencer → Bool
have_next_packet s = elim (BTreeMap.first_entry s.packet_queue) [
  | none ↦ false
  | some (key, _) ↦ key == s.next_seq
]

-- `now.duration_since(self.last_update).unwrap()` panics if the clock stands before `last_update`.
unfoldable pub is_deadline_exceeded : ℕ → Sequencer → Outcome Bool
is_deadline_exceeded now s =
    if ltb now s.last_update
    then panic clock_went_backwards
    else done (ltb s.deadline (now - s.last_update))
