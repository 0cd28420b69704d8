-- ===== src/Sequencer/Stream.antt =====
-- While no deadline passes, what src/sequencer.rs gives out is a function of what has arrived: the
-- stream of the packets numbered 0, 1, …, up to the first number that is missing.
use mpconn.Base.{
  ℕ, suc, ◌+◌, ◌≤◌, ◌<◌, ◌%◌, ◌^◌, ◌≡◌, refl, subst, sym, ◌∙◌, true, false, Bool-cases, inl, inr,
  List, All, map, [], ◌∷◌, ◌++◌, Option, some, none, ◌==◌, if◌then◌else◌, arith, Returns,
  >>=-Returns, length, length-append,
}
use mathlib.Core.List.{append-nil, append_assoc}
use native.Mathlib.Nat.{zero-add}
use mpconn.Base.BTreeMap
use mpconn.Base.BTreeMap.{BTreeMap, Above, AllEntries, get-or_insert, get_below}
use mpconn.Messages.{Packet}
use mpconn.Sequencer.{Sequencer, new, insert_packet, have_next_packet}
use mpconn.Sequencer.Deliver.{consecutive, drained, have_next_packet-drained}
use mpconn.Sequencer.Order.{
  IsEarly, Fits, next, next-Fits, drained-Fits, insert_packet-Fits, insert_packet_clock,
}
use mpconn.Sequencer.History.{Event, arrives, Trace, drain, step, run, drain-drained}

-- The first packet of a list with the number `i`.
abbrev pub first : ℕ → List Packet → Option Packet
first i [] = none
first i (pkt ∷ pkts) = if pkt.seq == i then some pkt else first i pkts

-- The list holds the first arrivals numbered `n`, `n + 1`, and so on.
abbrev pub IsStream : List Packet → ℕ → List Packet → Type 0
IsStream arrived n [] = Unit
IsStream arrived n (pkt ∷ pkts) = (first n arrived ≡ some pkt) × IsStream arrived (n + 1) pkts

-- A packet that arrives later changes nothing that is settled.
first-append :
    (i : ℕ) (pkts : List Packet) (pkt : Packet)
    → first i (pkts ++ pkt ∷ []) ≡ (
        if pkt.seq == i
        then some (elim (first i pkts) [ none ↦ pkt | some p ↦ p ])
        else first i pkts)
first-append i [] pkt = refl
first-append i (p ∷ pkts) pkt = ground (arith, first-append i pkts pkt)

IsStream-append :
    (arrived : List Packet) (pkt : Packet) (n : ℕ) (out : List Packet)
    → IsStream arrived n out
    → IsStream (arrived ++ pkt ∷ []) n out
IsStream-append arrived pkt n [] h = tt
IsStream-append arrived pkt n (p ∷ out) h =
    (ground (arith, first-append n arrived pkt), IsStream-append arrived pkt (n + 1) out h.1)

IsStream-join :
    (arrived : List Packet) (n : ℕ) (xs ys : List Packet)
    → IsStream arrived n xs
    → IsStream arrived (n + length xs) ys
    → IsStream arrived n (xs ++ ys)
IsStream-join arrived n [] ys h k = subst (λ m. IsStream arrived m ys) (omega arith) k
IsStream-join arrived n (x ∷ xs) ys h k = (
  h.0,
  IsStream-join arrived (n + 1) xs ys h.1 (subst (λ m. IsStream arrived m ys) (omega arith) k),
)

-- The queue reads as the arrivals do, from the next number on.
abbrev Reads : List Packet → ℕ → BTreeMap Packet → Type 0
Reads arrived n q = (i : ℕ) → n ≤ i → BTreeMap.get i q ≡ first i arrived

record IsSettled (arrived : List Packet) (t : Trace) : Type 0 where
  fits : Fits t.0.next_seq t.0.packet_queue
  reads : Reads arrived t.0.next_seq t.0.packet_queue
  stream : IsStream arrived 0 t.1
  count : length t.1 ≡ t.0.next_seq

module _ (arrived : List Packet) (now : ℕ) where
  next-Reads :
      (key : ℕ) (pkt : Packet) (q : BTreeMap Packet) (s : Sequencer)
      → (key == s.next_seq) ≡ true
      → IsEarly key pkt
      → Reads arrived s.next_seq ((key, pkt) ∷ q)
      → Reads arrived (next now key pkt q s).next_seq q
  unfolding BTreeMap.get
  next-Reads key pkt q s due early r = λ i h. ground (arith, r i (ground arith))

  due-first :
      (key : ℕ) (pkt : Packet) (q : BTreeMap Packet) (n : ℕ)
      → (key == n) ≡ true
      → Reads arrived n ((key, pkt) ∷ q)
      → first n arrived ≡ some pkt
  unfolding BTreeMap.get
  due-first key pkt q n due r = ground (arith, r n (omega arith))

  settle :
      (q : BTreeMap Packet) (s : Sequencer)
      → Fits s.next_seq q
      → Reads arrived s.next_seq q
      → IsStream arrived s.next_seq (consecutive s.next_seq q)
        × (length (consecutive s.next_seq q) + s.next_seq ≡ (drained now q s).next_seq)
        × Reads arrived (drained now q s).next_seq (drained now q s).packet_queue
  unfolding consecutive drained
  settle [] s f r = (tt, omega arith, r)
  settle ((key, pkt) ∷ q) s f r = elim (Bool-cases (key == s.next_seq)) [
    | inl due ↦
        let rest =
          settle q (next now key pkt q s) (next-Fits now key pkt q s due f)
            (next-Reads key pkt q s due f.1.0 r) in
        let after : (s.next_seq + 1) % 2 ^ 64 ≡ s.next_seq + 1 = ground arith in
        rw due (
          (
            due-first key pkt q s.next_seq due r,
            subst (λ n. IsStream arrived n (consecutive ((s.next_seq + 1) % 2 ^ 64) q)) after
                rest.0,
          ),
          omega (arith, rest.1, after),
          rest.2,
        )
    | inr gap ↦ rw gap (tt, omega arith, r)
  ]

not_due :
    (q : BTreeMap Packet) (s : Sequencer)
    → Fits s.next_seq q
    → have_next_packet (record s { packet_queue = q }) ≡ false
    → BTreeMap.get s.next_seq q ≡ none
unfolding have_next_packet BTreeMap.get
not_due [] s f h = refl
not_due ((key, pkt) ∷ q) s f h = ground (arith, get_below (suc key) s.next_seq q)

-- What is due next has not arrived.
abbrev IsMissing : List Packet → Trace → Type 0
IsMissing arrived t = first (length t.1) arrived ≡ none

settled-IsMissing :
    (arrived : List Packet) (t : Trace)
    → IsSettled arrived t
    → have_next_packet t.0 ≡ false
    → IsMissing arrived t
settled-IsMissing arrived (s, out) v h =
    rw v.count (sym (v.reads s.next_seq (omega arith)) ∙ not_due s.packet_queue s v.fits h)

drain-IsSettled :
    (arrived : List Packet) (now : ℕ) (t : Trace)
    → IsSettled arrived t
    → Returns (λ r. IsSettled arrived r × IsMissing arrived r) (drain now t)
drain-IsSettled arrived now (s, out) v =
    let (stream, count, reads) = settle arrived now s.packet_queue s v.fits v.reads in
    let from : IsStream arrived (0 + length out) (consecutive s.next_seq s.packet_queue) =
      rw (zero-add, v.count) stream in
    let settled : IsSettled arrived
        (drained now s.packet_queue s, out ++ consecutive s.next_seq s.packet_queue) =
      record {
        fits = drained-Fits now s.packet_queue s v.fits;
        reads = reads;
        stream = IsStream-join arrived 0 out _ v.stream (from);
        count =
            omega
              (arith, length-append out (consecutive s.next_seq s.packet_queue), v.count, count);
      } in
    rw drain-drained (settled, settled-IsMissing arrived _ settled (have_next_packet-drained now s))

insert_packet-Reads :
    (arrived : List Packet) (pkt : Packet) (s : Sequencer)
    → Above s.next_seq s.packet_queue
    → Reads arrived s.next_seq s.packet_queue
    → Reads (arrived ++ pkt ∷ []) (insert_packet pkt s).next_seq (insert_packet pkt s).packet_queue
unfolding insert_packet
insert_packet-Reads arrived pkt s above r = λ i h. ground (
  arith,
  first-append i arrived pkt,
  get-or_insert s.next_seq pkt.seq i pkt s.packet_queue above,
  r i,
)

-- An insertion reads as one more arrival.
insert_packet-IsSettled :
    (arrived : List Packet) (pkt : Packet) (s : Sequencer) (out : List Packet)
    → pkt.seq + 1 < 2 ^ 64
    → IsSettled arrived (s, out)
    → IsSettled (arrived ++ pkt ∷ []) (insert_packet pkt s, out)
insert_packet-IsSettled arrived pkt s out h v = record {
  fits = insert_packet-Fits pkt s h v.fits;
  reads = insert_packet-Reads arrived pkt s v.fits.0 v.reads;
  stream = IsStream-append arrived pkt 0 out v.stream;
  count = omega (arith, insert_packet_clock pkt s, v.count);
}

abbrev pub arrival : ℕ × Packet → Event
arrival (now, pkt) = arrives now pkt

abbrev pub IsEarlyArrival : ℕ × Packet → Type 0
IsEarlyArrival (now, pkt) = pkt.seq + 1 < 2 ^ 64

run-IsSettled :
    (arrived : List Packet) (l : List (ℕ × Packet)) (t : Trace)
    → All IsEarlyArrival l
    → IsSettled arrived t × IsMissing arrived t
    → Returns
        (λ r.
          IsStream (arrived ++ map (λ a. a.1) l) 0 r.1 × IsMissing (arrived ++ map (λ a. a.1) l) r)
        (run (map arrival l) t)
unfolding run step
run-IsSettled arrived [] t h v = rw append-nil (v.0.stream, v.1)
run-IsSettled arrived ((now, pkt) ∷ l) (s, out) h v =
    >>=-Returns (λ r. IsSettled (arrived ++ pkt ∷ []) r × IsMissing (arrived ++ pkt ∷ []) r) _
      (drain now (insert_packet pkt s, out)) (run (map arrival l))
      (drain-IsSettled _ now _ (insert_packet-IsSettled arrived pkt s out h.0 v.0))
      (λ r w. rw append_assoc at (run-IsSettled (arrived ++ pkt ∷ []) l r h.1 w))

new-IsSettled : (deadline now : ℕ) → IsSettled [] (new deadline now, [])
unfolding new BTreeMap.get
new-IsSettled deadline now = record {
  fits = (tt, tt);
  reads = λ i h. refl;
  stream = tt;
  count = refl;
}

-- From a new sequencer, every list of arrivals numbered below the last `u64` is worked off without a
-- panic, and what comes out is, for i = 0, 1, … in turn, the packet numbered i that arrived first, up
-- to a number that has not arrived: reordering is undone and copies are dropped.
pub run-IsStream :
    (deadline now : ℕ) (l : List (ℕ × Packet))
    → All IsEarlyArrival l
    → Returns
        (λ r. IsStream (map (λ a. a.1) l) 0 r.1 × (first (length r.1) (map (λ a. a.1) l) ≡ none))
        (run (map arrival l) (new deadline now, []))
run-IsStream deadline now l h =
    run-IsSettled [] l (new deadline now, []) h (new-IsSettled deadline now, refl)
