-- ===== src/Sequencer/Order.antt =====
-- The order in which packets come out of src/sequencer.rs.
use mpconn.Base.{
  ℕ, suc, ◌+◌, ◌≤◌, ◌<◌, ◌%◌, ◌^◌, ◌≡◌, refl, subst, sym, Bool, true, false, Bool-cases, inl, inr,
  List, [], ◌∷◌, ◌++◌, ◌==◌, if◌then◌else◌, arith, done, Returns, >>=-Returns,
}
use mpconn.Base.BTreeMap.{
  BTreeMap, Above, AllEntries, Above-mono, or_insert-Above, or_insert-AllEntries,
}
use mathlib.Core.List.{append-nil}
use mpconn.Messages.{Packet}
use mpconn.Sequencer.{Sequencer, new, insert_packet, advance_queue}
use mpconn.Sequencer.Deliver.{consecutive, drained}
use mpconn.Sequencer.Timer.{deadline_checked}
use mpconn.Sequencer.History.{Event, arrives, ticks, Trace, drain, step, run, drain-drained}

-- The entry's key is its packet's number, which is not the last `u64`.
abbrev pub IsEarly : ℕ → Packet → Type 0
IsEarly key pkt = (key ≡ pkt.seq) × (key + 1 < 2 ^ 64)

-- Numbers grow along the list, from `lo` on and below `hi`.
abbrev pub Increasing : ℕ → List Packet → ℕ → Type 0
Increasing lo [] hi = lo ≤ hi
Increasing lo (pkt ∷ pkts) hi = (lo ≤ pkt.seq) × Increasing (pkt.seq + 1) pkts hi

Increasing-append :
    (a b c : ℕ) (xs ys : List Packet)
    → Increasing a xs b
    → Increasing b ys c
    → Increasing a (xs ++ ys) c
Increasing-append a b c [] [] h k = omega arith
Increasing-append a b c [] (y ∷ ys) h k = (omega arith, k.1)
Increasing-append a b c (x ∷ xs) ys h k = (h.0, Increasing-append (x.seq + 1) b c xs ys h.1 k)

Increasing-from : (a b c : ℕ) (xs : List Packet) → a ≡ b → Increasing a xs c → Increasing b xs c
Increasing-from a b c xs e h = subst (λ n. Increasing n xs c) e h

-- A queue that is in order, and early, for a sequencer whose next number is `n`.
abbrev pub Fits : ℕ → BTreeMap Packet → Type 0
Fits n q = Above n q × AllEntries IsEarly q

module _ (now key : ℕ) (pkt : Packet) (q : BTreeMap Packet) (s : Sequencer) where
  abbrev pub next : Sequencer
  next = record s { next_seq = (s.next_seq + 1) % 2 ^ 64; last_update = now }

  pub next-Fits :
      (key == s.next_seq) ≡ true → Fits s.next_seq ((key, pkt) ∷ q) → Fits next.next_seq q
  next-Fits due f = (Above-mono (suc key) _ q (ground arith) f.0.1, f.1.1)

  next_after : (key == s.next_seq) ≡ true → IsEarly key pkt → next.next_seq ≡ pkt.seq + 1
  next_after due f = ground arith

consecutive-Increasing :
    (now : ℕ) (q : BTreeMap Packet) (s : Sequencer)
    → Fits s.next_seq q
    → Increasing s.next_seq (consecutive s.next_seq q) (drained now q s).next_seq
unfolding consecutive drained
consecutive-Increasing now [] s f = omega arith
consecutive-Increasing now ((key, pkt) ∷ q) s f = elim (Bool-cases (key == s.next_seq)) [
  | inl due ↦
      let rest =
        consecutive-Increasing now q (next now key pkt q s) (next-Fits now key pkt q s due f) in
      rw due (ground arith, Increasing-from _ _ _ _ (next_after now key pkt q s due f.1.0) rest)
  | inr gap ↦ rw gap (omega arith)
]

pub drained-Fits :
    (now : ℕ) (q : BTreeMap Packet) (s : Sequencer)
    → Fits s.next_seq q
    → Fits (drained now q s).next_seq (drained now q s).packet_queue
unfolding drained
drained-Fits now [] s f = (tt, tt)
drained-Fits now ((key, pkt) ∷ q) s f = elim (Bool-cases (key == s.next_seq)) [
  | inl due ↦ rw due (drained-Fits now q (next now key pkt q s) (next-Fits now key pkt q s due f))
  | inr gap ↦ rw gap f
]

drained-last_update :
    (now : ℕ) (q : BTreeMap Packet) (s : Sequencer)
    → s.last_update ≤ now
    → (drained now q s).last_update ≤ now
unfolding drained
drained-last_update now [] s h = h
drained-last_update now ((key, pkt) ∷ q) s h =
    ground (arith, drained-last_update now q (next now key pkt q s))

record IsOrdered (now : ℕ) (t : Trace) : Type 0 where
  fits : Fits t.0.next_seq t.0.packet_queue
  given : Increasing 0 t.1 t.0.next_seq
  clock : t.0.last_update ≤ now

-- The sequence numbers of arrivals stay below the last `u64`, and the clock does not go back.
abbrev pub time : Event → ℕ
time (arrives now pkt) = now
time (ticks now) = now

abbrev pub IsEarlyEvent : Event → Type 0
IsEarlyEvent (arrives now pkt) = pkt.seq + 1 < 2 ^ 64
IsEarlyEvent (ticks now) = Unit

abbrev pub IsHistory : ℕ → List Event → Type 0
IsHistory now [] = Unit
IsHistory now (e ∷ es) = (now ≤ time e) × IsEarlyEvent e × IsHistory (time e) es

drain-IsOrdered : (now : ℕ) (t : Trace) → IsOrdered now t → Returns (IsOrdered now) (drain now t)
drain-IsOrdered now (s, out) o = rw drain-drained (record {
  fits = drained-Fits now s.packet_queue s o.fits;
  given =
      Increasing-append 0 s.next_seq _ out _ o.given
        (consecutive-Increasing now s.packet_queue s o.fits);
  clock = drained-last_update now s.packet_queue s o.clock;
})

pub insert_packet-Fits :
    (pkt : Packet) (s : Sequencer)
    → pkt.seq + 1 < 2 ^ 64
    → Fits s.next_seq s.packet_queue
    → Fits (insert_packet pkt s).next_seq (insert_packet pkt s).packet_queue
unfolding insert_packet
insert_packet-Fits pkt s h f = ground (
  arith,
  or_insert-Above s.next_seq pkt.seq pkt s.packet_queue,
  or_insert-AllEntries IsEarly pkt.seq pkt s.packet_queue (refl, h) f.1,
)

advance_queue_lem :
    (s : Sequencer)
    → Fits s.next_seq s.packet_queue
    → Fits (advance_queue s).next_seq (advance_queue s).packet_queue
      × (s.next_seq ≤ (advance_queue s).next_seq)
      × ((advance_queue s).last_update ≡ s.last_update)
unfolding advance_queue
advance_queue_lem s f = ground arith

pub insert_packet_clock :
    (pkt : Packet) (s : Sequencer)
    → ((insert_packet pkt s).next_seq ≡ s.next_seq)
      × ((insert_packet pkt s).last_update ≡ s.last_update)
unfolding insert_packet
insert_packet_clock pkt s = ground arith

timer-IsOrdered :
    (now at : ℕ) (late : Bool) (t : Trace)
    → now ≤ at
    → IsOrdered now t
    → Returns (IsOrdered at) (if late then drain at (advance_queue t.0, t.1) else done t)
timer-IsOrdered now at true (s, out) h o =
    let (fits, further, clock) = advance_queue_lem s o.fits in
    drain-IsOrdered at (advance_queue s, out)
      (record {
        fits = fits;
        given = rw append-nil at (Increasing-append 0 s.next_seq _ out [] o.given further);
        clock = omega arith;
      })
timer-IsOrdered now at false t h o = record { fits = o.fits; given = o.given; clock = omega arith }

step-IsOrdered :
    (now : ℕ) (e : Event) (t : Trace)
    → now ≤ time e
    → IsEarlyEvent e
    → IsOrdered now t
    → Returns (IsOrdered (time e)) (step e t)
unfolding step
step-IsOrdered now (arrives at pkt) (s, out) h early o =
    let (next, clock) = insert_packet_clock pkt s in
    drain-IsOrdered at (insert_packet pkt s, out)
      (record {
        fits = insert_packet-Fits pkt s early o.fits;
        given = subst (Increasing 0 out) (sym next) o.given;
        clock = omega arith;
      })
step-IsOrdered now (ticks at) (s, out) h early o =
    rw (deadline_checked at s (omega arith)) (timer-IsOrdered now at _ (s, out) h o)

run-IsOrdered :
    (now : ℕ) (es : List Event) (t : Trace)
    → IsHistory now es
    → IsOrdered now t
    → Returns (λ r. Increasing 0 r.1 r.0.next_seq) (run es t)
unfolding run
run-IsOrdered now [] t h o = o.given
run-IsOrdered now (e ∷ es) t h o =
    >>=-Returns (IsOrdered (time e)) _ (step e t) (run es) (step-IsOrdered now e t h.0 h.1 o)
      (λ r. run-IsOrdered (time e) es r h.2)

new-IsOrdered : (deadline now : ℕ) → IsOrdered now (new deadline now, [])
unfolding new
new-IsOrdered deadline now = record { fits = (tt, tt); given = omega arith; clock = omega arith }

-- From a new sequencer, every history whose clock does not go back and whose packets are numbered
-- below the last `u64` runs to its end, and the packets that come out have strictly growing numbers,
-- all below the number that is due next.
pub run-Increasing :
    (deadline now : ℕ) (es : List Event)
    → IsHistory now es
    → Returns (λ t. Increasing 0 t.1 t.0.next_seq) (run es (new deadline now, []))
run-Increasing deadline now es h =
    run-IsOrdered now es (new deadline now, []) h (new-IsOrdered deadline now)
