-- ===== src/Sequencer/History.antt =====
-- One peer's sequencer over a history of arrivals and timer ticks, as src/connection_manager.rs
-- drives it: a packet is inserted and the loop runs; a tick past the deadline advances the queue and
-- the loop runs. What the loop's body does with a packet is reduced to noting it.
use mpconn.Base.{ℕ, ◌≡◌, if◌then◌else◌, List, [], ◌∷◌, ◌++◌, length, Outcome, done, ◌>>=◌}
use mathlib.Core.List.{append-nil, append_assoc}
use mpconn.Messages.{Packet}
use mpconn.Sequencer.{Sequencer, insert_packet, advance_queue, is_deadline_exceeded}
use mpconn.Sequencer.Deliver.{deliver, each, consecutive, drained, deliver-consecutive}

pub data Event : Type 0 where
  arrives : ℕ → Packet → Event
  ticks : ℕ → Event

-- The sequencer, with the packets that it gave out, oldest first.
abbrev pub Trace : Type 0
Trace = Sequencer × List Packet

unfoldable pub note_packet : Packet → List Packet → Outcome (List Packet)
note_packet pkt out = done (out ++ pkt ∷ [])

unfoldable pub drain : ℕ → Trace → Outcome Trace
drain now (s, out) = deliver (length s.packet_queue) now note_packet s out

unfoldable pub step : Event → Trace → Outcome Trace
step (arrives now pkt) (s, out) = drain now (insert_packet pkt s, out)
step (ticks now) (s, out) = do
  late ← is_deadline_exceeded now s
  if late then drain now (advance_queue s, out) else done (s, out)

unfoldable pub run : List Event → Trace → Outcome Trace
run [] t = done t
run (e ∷ es) t = step e t >>= run es

each-note_packet : (pkts out : List Packet) → each note_packet pkts out ≡ done (out ++ pkts)
unfolding each note_packet
each-note_packet [] out = rw append-nil
each-note_packet (pkt ∷ pkts) out = rw (each-note_packet pkts (out ++ pkt ∷ []), append_assoc)

pub drain-drained :
    (now : ℕ) (s : Sequencer) (out : List Packet)
    → drain now (s, out)
      ≡ done (drained now s.packet_queue s, out ++ consecutive s.next_seq s.packet_queue)
unfolding drain
drain-drained now s out = rw (deliver-consecutive now note_packet s out, each-note_packet)
