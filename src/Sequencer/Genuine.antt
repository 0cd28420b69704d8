-- ===== src/Sequencer/Genuine.antt =====
-- src/sequencer.rs under arrivals and its timer: where the packets come from, and how many there are.
use mpconn.Base.{
  ℕ, suc, ◌+◌, ◌≤◌, ◌%◌, ◌^◌, true, false, Bool, if◌then◌else◌, List, [], ◌∷◌, length,
  length-append, All, All-append, arith, Returns, >>=-Returns, done,
}
use mpconn.Base.BTreeMap.{BTreeMap, AllEntries, or_insert, or_insert-AllEntries}
use mpconn.Messages.{Packet}
use mpconn.Sequencer.{Sequencer, new, insert_packet, advance_queue}
use mpconn.Sequencer.Deliver.{consecutive, drained}
use mpconn.Sequencer.History.{Event, arrives, ticks, Trace, step, run, drain, drain-drained}
use mpconn.Sequencer.Order.{time, insert_packet_clock}
use mpconn.Sequencer.Timer.{advanced, advance_queue-advanced, deadline_checked}

-- The packets that arrive.
abbrev pub arrivals : List Event → List Packet
arrivals [] = []
arrivals (arrives now pkt ∷ es) = pkt ∷ arrivals es
arrivals (ticks now ∷ es) = arrivals es

-- The clock does not go back.
abbrev pub IsClocked : ℕ → List Event → Type 0
IsClocked now [] = Unit
IsClocked now (e ∷ es) = (now ≤ time e) × IsClocked (time e) es

length-or_insert :
    (key : ℕ) (pkt : Packet) (q : BTreeMap Packet) → length (or_insert key pkt q) ≤ suc (length q)
unfolding or_insert
length-or_insert key pkt [] = omega arith
length-or_insert key pkt ((j, w) ∷ q) = ground (arith, length-or_insert key pkt q)

insert_packet-length :
    (pkt : Packet) (s : Sequencer)
    → length (insert_packet pkt s).packet_queue ≤ suc (length s.packet_queue)
unfolding insert_packet
insert_packet-length pkt s = ground (arith, length-or_insert pkt.seq pkt s.packet_queue)

module _ (P : Packet → Type 0) where
  abbrev pub AllQueued : BTreeMap Packet → Type 0
  AllQueued q = AllEntries (λ key pkt. P pkt) q

  -- What a sequencer and its past look like after `n` arrivals.
  record IsGenuine (n now : ℕ) (t : Trace) : Type 0 where
    given : All P t.1
    queued : AllQueued t.0.packet_queue
    count : length t.1 + length t.0.packet_queue ≤ n
    clock : t.0.last_update ≤ now

  -- What the loop gives out and what it leaves was in the queue.
  pub drained-AllQueued :
      (now : ℕ) (q : BTreeMap Packet) (s : Sequencer)
      → AllQueued q
      → All P (consecutive s.next_seq q) × AllQueued (drained now q s).packet_queue
  unfolding consecutive drained
  drained-AllQueued now [] s a = (tt, tt)
  drained-AllQueued now ((key, pkt) ∷ q) s a = ground (
    arith,
    drained-AllQueued now q (record s { next_seq = (s.next_seq + 1) % 2 ^ 64; last_update = now })
        a.1,
  )

  drained_lem :
      (now : ℕ) (q : BTreeMap Packet) (s : Sequencer)
      → s.last_update ≤ now
      → (length (consecutive s.next_seq q) + length (drained now q s).packet_queue ≤ length q)
        × ((drained now q s).last_update ≤ now)
  unfolding consecutive drained
  drained_lem now [] s h = (omega arith, h)
  drained_lem now ((key, pkt) ∷ q) s h = ground (
    arith,
    drained_lem now q (record s { next_seq = (s.next_seq + 1) % 2 ^ 64; last_update = now })
        (omega arith),
  )

  drain-IsGenuine :
      (n now : ℕ) (t : Trace) → IsGenuine n now t → Returns (IsGenuine n now) (drain now t)
  drain-IsGenuine n now (s, out) g =
      let (given, queued) = drained-AllQueued now s.packet_queue s g.queued in
      let (count, clock) = drained_lem now s.packet_queue s g.clock in
      rw drain-drained (record {
        given = All-append P out _ g.given given;
        queued = queued;
        count = omega (arith, length-append out (consecutive s.next_seq s.packet_queue), g.count);
        clock = clock;
      })

  pub insert_packet-AllQueued :
      (pkt : Packet) (s : Sequencer)
      → P pkt
      → AllQueued s.packet_queue
      → AllQueued (insert_packet pkt s).packet_queue
  unfolding insert_packet
  insert_packet-AllQueued pkt s h a =
      ground (arith, or_insert-AllEntries (λ key pkt. P pkt) pkt.seq pkt s.packet_queue h a)

  timer-IsGenuine :
      (n now at : ℕ) (late : Bool) (t : Trace)
      → now ≤ at
      → IsGenuine n now t
      → Returns (IsGenuine n at) (if late then drain at (advance_queue t.0, t.1) else done t)
  timer-IsGenuine n now at true (s, out) h g = rw (advance_queue-advanced s) (
      drain-IsGenuine n at (advanced s, out)
        (record {
          given = g.given;
          queued = g.queued;
          count = g.count;
          clock = omega (arith, g.clock);
        }))
  timer-IsGenuine n now at false t h g = record {
    given = g.given;
    queued = g.queued;
    count = g.count;
    clock = omega (arith, g.clock);
  }

  run_counted :
      (m n now : ℕ) (es : List Event) (t : Trace)
      → n + length (arrivals es) ≤ m
      → IsClocked now es
      → All P (arrivals es)
      → IsGenuine n now t
      → Returns
          (λ r. All P r.1 × AllQueued r.0.packet_queue × (length r.1 + length r.0.packet_queue ≤ m))
          (run es t)
  unfolding run step
  run_counted m n now [] t most h a g = (g.given, g.queued, omega (arith, g.count))
  run_counted m n now (arrives at pkt ∷ es) (s, out) most h a g =
      let (next, clock) = insert_packet_clock pkt s in
      >>=-Returns (IsGenuine (suc n) at) _ (step (arrives at pkt) (s, out)) (run es)
        (drain-IsGenuine (suc n) at (insert_packet pkt s, out)
          (record {
            given = g.given;
            queued = insert_packet-AllQueued pkt s a.0 g.queued;
            count = omega (arith, insert_packet-length pkt s, g.count);
            clock = omega (arith, g.clock);
          }))
        (λ r. run_counted m (suc n) at es r (omega arith) h.1 a.1)
  run_counted m n now (ticks at ∷ es) (s, out) most h a g =
      >>=-Returns (IsGenuine n at) _ (step (ticks at) (s, out)) (run es)
        (rw (deadline_checked at s (omega (arith, g.clock)))
          (timer-IsGenuine n now at _ (s, out) h.0 g))
        (λ r. run_counted m n at es r most h.1 a)

new-IsGenuine : (P : Packet → Type 0) (deadline now : ℕ) → IsGenuine P 0 now (new deadline now, [])
unfolding new
new-IsGenuine P deadline now = record {
  given = tt;
  queued = tt;
  count = omega arith;
  clock = omega arith;
}

-- From a new sequencer, every history whose clock does not go back runs to its end; whatever holds
-- of all packets that arrived holds of all that came out and of all that still wait; and these are
-- together at most as many as arrived. Nothing is made up and nothing is multiplied.
pub run-All :
    (P : Packet → Type 0) (deadline now : ℕ) (es : List Event)
    → IsClocked now es
    → All P (arrivals es)
    → Returns
        (λ r.
          All P r.1
          × AllQueued P r.0.packet_queue
          × (length r.1 + length r.0.packet_queue ≤ length (arrivals es)))
        (run es (new deadline now, []))
run-All P deadline now es h a =
    run_counted P (length (arrivals es)) 0 now es (new deadline now, []) (omega arith) h a
      (new-IsGenuine P deadline now)
