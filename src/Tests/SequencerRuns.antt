-- ===== src/Tests/SequencerRuns.antt =====
-- Tests of src/sequencer.rs, the source's own among them.
use mathlib.Core.Quot
use mpconn.Base.{
  ℕ, ◌≡◌, refl, List, [], ◌∷◌, map, arith, Outcome, done, ◌>>=◌, Returns, length, none, false, All,
  ◌+◌, ◌<◌, ◌≤◌,
}
use mpconn.Base.BTreeMap
use mpconn.Messages.{Packet}
use mpconn.PeerList.{from_millis}
use mpconn.Sequencer.{
  Sequencer, new, get_next_packet, insert_packet, advance_queue, have_next_packet,
  is_deadline_exceeded,
}
use mpconn.Sequencer.Deliver.{deliver, each, consecutive, drained, deliver_enough}
use mpconn.Sequencer.Abstract.{numbers, sent_from, first_missing, run-first_missing}
use mpconn.Sequencer.Genuine.{AllQueued, arrivals, run-All}
use mpconn.Sequencer.Liveness.{waiting, run-waiting}
use mpconn.Sequencer.History.{Event, arrives, ticks, note_packet, drain, step, run}
use mpconn.Sequencer.Order.{Increasing, run-Increasing}
use mpconn.Sequencer.Stream.{IsStream, first, arrival, run-IsStream}
use mpconn.Sequencer.Reordering.{IsSameLoss, packets, run_reordered}
use mpconn.Tests.Values.{pkt}

program : Unit {0}
unfolding new get_next_packet insert_packet advance_queue have_next_packet is_deadline_exceeded
    deliver note_packet drain step run BTreeMap.or_insert
program = tt

abbrev unordered : List (ℕ × Packet)
unordered = (0, pkt 0 []) ∷ (1, pkt 3 []) ∷ (2, pkt 3 []) ∷ (3, pkt 1 []) ∷ (4, pkt 2 []) ∷ []

abbrev sequence_numbers : Outcome (Sequencer × List Packet) → Outcome (List ℕ)
sequence_numbers r = r >>= λ t. done (map (λ p. p.seq) t.1)

-- `duplicates_in_order`
duplicates_in_order :
    sequence_numbers (run (map arrival unordered) (new (from_millis 1) 0, []))
    ≡ done (0 ∷ 1 ∷ 2 ∷ 3 ∷ [])
unfolding program
duplicates_in_order = refl

-- A hole is skipped when the deadline has passed.
abbrev holed : List Event
holed =
    arrives 0 (pkt 0 [])
    ∷ arrives 1 (pkt 2 [])
    ∷ ticks 2
    ∷ ticks 4_000_000
    ∷ arrives 4_000_001 (pkt 1 [])
    ∷ []

skips_a_hole : sequence_numbers (run holed (new (from_millis 3) 0, [])) ≡ done (0 ∷ 2 ∷ [])
unfolding program
skips_a_hole = refl

run-IsStream_example :
    Returns
      (λ r.
        IsStream (map (λ a. a.1) unordered) 0 r.1
        × (first (length r.1) (map (λ a. a.1) unordered) ≡ none))
      (run (map arrival unordered) (new (from_millis 1) 0, []))
run-IsStream_example = run-IsStream (from_millis 1) 0 unordered (omega arith)

run-Increasing_example :
    Returns (λ t. Increasing 0 t.1 t.0.next_seq) (run holed (new (from_millis 3) 0, []))
run-Increasing_example = run-Increasing (from_millis 3) 0 holed (omega arith)

abbrev queued : Sequencer
queued = record {
  packet_queue = (4, pkt 4 []) ∷ (5, pkt 5 []) ∷ (9, pkt 9 []) ∷ [];
  next_seq = 4;
  deadline = 3_000_000;
  last_update = 0;
}

deliver_enough_example :
    (deliver 7 8 note_packet queued [] ≡ (
      each note_packet (consecutive 4 queued.packet_queue) [] >>= λ st.
      done (drained 8 queued.packet_queue queued, st)))
    × (have_next_packet (drained 8 queued.packet_queue queued) ≡ false)
deliver_enough_example = deliver_enough 8 note_packet 7 queued [] (omega arith)

-- Two gaps, and a timer that ticks each millisecond.
abbrev gapped : Sequencer
gapped = record {
  packet_queue = (5, pkt 5 []) ∷ (6, pkt 6 []) ∷ (9, pkt 9 []) ∷ [];
  next_seq = 4;
  deadline = 3_000_000;
  last_update = 0;
}

abbrev tick_times : List ℕ
tick_times =
    1_000_000 ∷ 2_000_000 ∷ 3_000_000 ∷ 4_000_000 ∷ 5_000_000 ∷ 6_000_000 ∷ 7_000_000 ∷ 8_000_000
    ∷ 9_000_000 ∷ 10_000_000 ∷ 11_000_000 ∷ 12_000_000 ∷ 13_000_000 ∷ []

run-waiting_example :
    (s' : Sequencer) × (run (map ticks tick_times) (gapped, [])
      ≡ done (s', waiting gapped.packet_queue))
    × (s'.packet_queue ≡ [])
run-waiting_example = run-waiting (from_millis 1) tick_times gapped [] (omega arith) (omega arith)

run-All_example :
    Returns
      (λ r.
        All (λ p. p.seq < 3) r.1
        × AllQueued (λ p. p.seq < 3) r.0.packet_queue
        × (length r.1 + length r.0.packet_queue ≤ length (arrivals holed)))
      (run holed (new (from_millis 3) 0, []))
run-All_example = run-All (λ p. p.seq < 3) (from_millis 3) 0 holed (omega arith) (omega arith)

-- The same packets, in order, each once.
abbrev ordered : List (ℕ × Packet)
ordered = (5, pkt 0 []) ∷ (6, pkt 1 []) ∷ (7, pkt 2 []) ∷ (8, pkt 3 []) ∷ []

same_loss : IsSameLoss (packets unordered) (packets ordered)
same_loss i = ground arith

run_reordered_example :
    Returns
      (λ r. Returns (λ r'. r.1 ≡ r'.1) (run (map arrival ordered) (new (from_millis 3) 5, [])))
      (run (map arrival unordered) (new (from_millis 1) 0, []))
run_reordered_example =
    run_reordered (λ seq. pkt seq []) (from_millis 1) (from_millis 3) 0 5 unordered ordered
      (omega arith) (omega arith) (refl, (refl, (refl, (refl, (refl, tt)))))
      (refl, (refl, (refl, (refl, tt)))) same_loss

run-first_missing_example :
    Returns
      (λ r.
        r.1
        ≡ sent_from (λ seq. pkt seq []) 0 (first_missing (Quot.mk (numbers (packets unordered)))))
      (run (map arrival unordered) (new (from_millis 1) 0, []))
run-first_missing_example =
    run-first_missing (λ seq. pkt seq []) (from_millis 1) 0 unordered (omega arith)
      (refl, (refl, (refl, (refl, (refl, tt)))))
