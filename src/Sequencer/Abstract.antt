-- ===== src/Sequencer/Abstract.antt =====
-- An abstract view of what src/sequencer.rs has received: the set of the numbers that arrived, which
-- forgets the order, the times and the copies.
use mathlib.Core.Path.{ap₂}
use mathlib.Core.Quot
use mathlib.Core.Quot.{Quot}
use native.Mathlib.Nat.{ℕ_set}
use mpconn.Base.{
  ℕ, zero, suc, ◌+◌, ◌≤◌, ◌<◌, ◌==◌, ◌≡◌, refl, ap, sym, subst, ◌∙◌, Bool, true, false, Bool-cases,
  inl, inr, All, map, length, none, some, ltb, if◌then◌else◌, List, [], ◌∷◌, arith, Returns,
  Returns-mono,
}
use mpconn.Messages.{Packet}
use mpconn.Sequencer.{new}
use mpconn.Sequencer.History.{run}
use mpconn.Sequencer.Reordering.{IsNumbered, first_sender, packets, IsWhole}
use mpconn.Sequencer.Stream.{first, IsStream, arrival, IsEarlyArrival, run-IsStream}

abbrev pub has : ℕ → List ℕ → Bool
has i [] = false
has i (n ∷ ns) = if n == i then true else has i ns

abbrev SameNumbers : List ℕ → List ℕ → Type 0
SameNumbers ns ms = (i : ℕ) → has i ns ≡ has i ms

-- A finite set of numbers.
abbrev pub Seen : Type 0
Seen = Quot SameNumbers

abbrev highest : List ℕ → ℕ
highest [] = 0
highest (n ∷ ns) = let rest = highest ns in if ltb n rest then rest else n

has_above : (i : ℕ) (ns : List ℕ) → highest ns < i → has i ns ≡ false
has_above i [] h = refl
has_above i (n ∷ ns) h = ground (arith, has_above i ns)

-- The least number from `n` on that is not in the list.
abbrev gap : ℕ → ℕ → List ℕ → ℕ
gap zero n ns = n
gap (suc fuel) n ns = let rest = gap fuel (n + 1) ns in if has n ns then rest else n

abbrev IsGap : ℕ → ℕ → List ℕ → Type 0
IsGap n k ns = (n ≤ k) × ((i : ℕ) → n ≤ i → i < k → has i ns ≡ true) × (has k ns ≡ false)

gap-IsGap : (fuel n : ℕ) (ns : List ℕ) → highest ns < n + fuel → IsGap n (gap fuel n ns) ns
gap-IsGap zero n ns h =
    (omega arith, λ i low high. absurd (omega arith), has_above n ns (omega arith))
gap-IsGap (suc fuel) n ns h = elim (Bool-cases (has n ns)) [
  | inl here ↦
      let (low, all, out) = gap-IsGap fuel (n + 1) ns (omega arith) in
      rw here (omega arith, λ i above below. further i here above below all, out)
  | inr out ↦ rw out (omega arith, λ i low high. absurd (omega arith), out)
]
  where
    further :
        (i : ℕ)
        → has n ns ≡ true
        → n ≤ i
        → i < gap fuel (n + 1) ns
        → ((j : ℕ) → n + 1 ≤ j → j < gap fuel (n + 1) ns → has j ns ≡ true)
        → has i ns ≡ true
    further i here above below all = elim (Bool-cases (n == i)) [
      | inl same ↦ let e : n ≡ i = ground (arith, same) in subst (λ j. has j ns ≡ true) e here
      | inr other ↦ all i (ground (arith, other)) below
    ]

IsGap-same : (k j : ℕ) (ns ms : List ℕ) → SameNumbers ns ms → IsGap 0 k ns → IsGap 0 j ms → k ≡ j
IsGap-same k j ns ms same (low, all, out) (low', all', out') = elim (Bool-cases (ltb k j)) [
  | inl less ↦ absurd (ground (arith, less, all' k, same k, out))
  | inr more ↦ elim (Bool-cases (ltb j k)) [
    | inl less ↦ absurd (ground (arith, less, all j, same j, out'))
    | inr equal ↦ ground (arith, more, equal)
  ]
]

-- The least number that has not arrived.
pub first_missing : Seen → ℕ
first_missing =
    Quot.lift ℕ_set (λ ns. gap (suc (highest ns)) 0 ns)
      (λ ns ms same.
        IsGap-same (gap (suc (highest ns)) 0 ns) (gap (suc (highest ms)) 0 ms) ns ms same
          (gap-IsGap (suc (highest ns)) 0 ns (omega arith))
          (gap-IsGap (suc (highest ms)) 0 ms (omega arith)))

abbrev pub numbers : List Packet → List ℕ
numbers pkts = map (λ p. p.seq) pkts

-- The sender's packets from number `n` on.
abbrev pub sent_from : (ℕ → Packet) → ℕ → ℕ → List Packet
sent_from sender n zero = []
sent_from sender n (suc count) = sender n ∷ sent_from sender (n + 1) count

has-none : (i : ℕ) (pkts : List Packet) → first i pkts ≡ none → has i (numbers pkts) ≡ false
has-none i [] h = refl
has-none i (p ∷ pkts) h = ground (arith, has-none i pkts)

has-some :
    (i : ℕ) (pkt : Packet) (pkts : List Packet)
    → first i pkts ≡ some pkt
    → has i (numbers pkts) ≡ true
has-some i pkt [] h = absurd cc
has-some i pkt (p ∷ pkts) h = ground (arith, has-some i pkt pkts)

-- A stream of the sender's packets is an interval of them, all of which arrived.
stream-sent_from :
    (sender : ℕ → Packet) (pkts : List Packet) (n : ℕ) (out : List Packet)
    → All (IsNumbered sender) pkts
    → IsStream pkts n out
    → (out ≡ sent_from sender n (length out))
      × ((i : ℕ) → n ≤ i → i < n + length out → has i (numbers pkts) ≡ true)
stream-sent_from sender pkts n [] numbered h = (refl, λ i low high. absurd (omega arith))
stream-sent_from sender pkts n (p ∷ out) numbered h =
    let (rest, all) = stream-sent_from sender pkts (n + 1) out numbered h.1 in
    (
      ap₂ (λ x xs. x ∷ xs) (sym (first_sender sender n p pkts numbered h.0)) rest,
      λ i low high. elim (Bool-cases (n == i)) [
        | inl here ↦
            let e : n ≡ i = ground (arith, here) in
            subst (λ j. has j (numbers pkts) ≡ true) e (has-some n p pkts h.0)
        | inr later ↦ all i (ground (arith, later)) (omega arith)
      ],
    )

-- The sequencer implements a function on sets of numbers. A new sequencer that is given packets of
-- one sender, numbered below the last `u64`, in any order and any number of copies, returns and has
-- given out just the packets below the least number that has not arrived, in order.
pub run-first_missing :
    (sender : ℕ → Packet) (deadline now : ℕ) (l : List (ℕ × Packet))
    → All IsEarlyArrival l
    → All (IsNumbered sender) (packets l)
    → Returns
        (λ r. r.1 ≡ sent_from sender 0 (first_missing (Quot.mk (numbers (packets l)))))
        (run (map arrival l) (new deadline now, []))
unfolding first_missing
run-first_missing sender deadline now l early numbered =
    let ns = numbers (packets l) in
    Returns-mono (IsWhole (packets l)) (λ r. r.1 ≡ sent_from sender 0 (gap (suc (highest ns)) 0 ns))
      _ (run-IsStream deadline now l early)
      (λ r h.
        let (out, all) = stream-sent_from sender (packets l) 0 r.1 numbered h.0 in
        let same =
          IsGap-same (length r.1) (gap (suc (highest ns)) 0 ns) ns ns (λ i. refl)
            (
              omega arith,
              λ i low high. all i low (omega arith),
              has-none (length r.1) (packets l) h.1,
            )
            (gap-IsGap (suc (highest ns)) 0 ns (omega arith)) in
        out ∙ ap (λ k. sent_from sender 0 k) same)
