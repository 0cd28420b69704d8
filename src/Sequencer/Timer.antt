-- ===== src/Sequencer/Timer.antt =====
-- The deadline of src/sequencer.rs.
use mpconn.Base.{ℕ, ◌-◌, ◌≤◌, ◌≡◌, [], ◌∷◌, ltb, arith, done}
use mpconn.Base.BTreeMap.{BTreeMap}
use mpconn.Messages.{Packet}
use mpconn.Sequencer.{Sequencer, advance_queue, is_deadline_exceeded}

-- The number at the head of the queue.
abbrev pub head_seq : BTreeMap Packet → ℕ → ℕ
head_seq [] n = n
head_seq ((key, pkt) ∷ q) n = key

abbrev pub advanced : Sequencer → Sequencer
advanced s = record s { next_seq = head_seq s.packet_queue s.next_seq }

pub advance_queue-advanced : (s : Sequencer) → advance_queue s ≡ advanced s
unfolding advance_queue
advance_queue-advanced s = ground arith

pub deadline_checked :
    (now : ℕ) (s : Sequencer)
    → s.last_update ≤ now
    → is_deadline_exceeded now s ≡ done (ltb s.deadline (now - s.last_update))
unfolding is_deadline_exceeded
deadline_checked now s h = ground arith
