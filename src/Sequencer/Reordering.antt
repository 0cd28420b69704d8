-- ===== src/Sequencer/Reordering.antt =====
-- Two histories of src/sequencer.rs that differ in the order and in the copies of the packets.
use mpconn.Base.{
  ℕ, ◌+◌, ◌≡◌, ◌↔◌, refl, sym, ap, subst, ◌∙◌, Bool-cases, inl, inr, All, map, length, none, some,
  List, [], ◌∷◌, ◌==◌, arith, Returns, Returns-mono,
}
use mathlib.Core.Path.{ap₂}
use mathlib.Core.Option.{some-injective}
use mpconn.Messages.{Packet}
use mpconn.Sequencer.{new}
use mpconn.Sequencer.History.{run, Trace}
use mpconn.Sequencer.Stream.{first, IsStream, arrival, IsEarlyArrival, run-IsStream}

-- The packet is the one that the sender gave this number.
abbrev pub IsNumbered : (ℕ → Packet) → Packet → Type 0
IsNumbered sender pkt = sender pkt.seq ≡ pkt

pub first_sender :
    (sender : ℕ → Packet) (i : ℕ) (pkt : Packet) (pkts : List Packet)
    → All (IsNumbered sender) pkts
    → first i pkts ≡ some pkt
    → sender i ≡ pkt
first_sender sender i pkt [] h e = absurd (ground (arith, e))
first_sender sender i pkt (p ∷ pkts) h e = elim (Bool-cases (p.seq == i)) [
  | inl here ↦
      let number : p.seq ≡ i = ground arith in
      ap sender (sym number) ∙ h.0 ∙ some-injective p pkt (rw here at e)
  | inr there ↦ first_sender sender i pkt pkts h.1 (rw there at e)
]

-- The same numbers are missing.
abbrev pub IsSameLoss : List Packet → List Packet → Type 0
IsSameLoss pkts pkts' = (i : ℕ) → (first i pkts ≡ none) ↔ (first i pkts' ≡ none)

module _ (sender : ℕ → Packet) (pkts pkts' : List Packet) (numbered : All (IsNumbered sender) pkts)
    (numbered' : All (IsNumbered sender) pkts') (same : IsSameLoss pkts pkts') where
  streams_agree :
      (n : ℕ) (out out' : List Packet)
      → IsStream pkts n out
      → IsStream pkts' n out'
      → first (n + length out) pkts ≡ none
      → first (n + length out') pkts' ≡ none
      → out ≡ out'
  streams_agree n [] [] h h' e e' = refl
  streams_agree n [] (p ∷ out') h h' e e' =
      let lost : first n pkts ≡ none = subst (λ m. first m pkts ≡ none) (omega arith) e in
      absurd (ground (arith, (same n).0 lost, h'.0))
  streams_agree n (p ∷ out) [] h h' e e' =
      let lost : first n pkts' ≡ none = subst (λ m. first m pkts' ≡ none) (omega arith) e' in
      absurd (ground (arith, (same n).1 lost, h.0))
  streams_agree n (p ∷ out) (q ∷ out') h h' e e' =
      ap₂ (λ x xs. x ∷ xs)
        (sym (first_sender sender n p pkts numbered h.0)
          ∙ first_sender sender n q pkts' numbered' h'.0)
        (streams_agree (n + 1) out out' h.1 h'.1 (subst (λ m. first m pkts ≡ none) (omega arith) e)
          (subst (λ m. first m pkts' ≡ none) (omega arith) e'))

abbrev pub packets : List (ℕ × Packet) → List Packet
packets l = map (λ a. a.1) l

-- All that can be given out was.
abbrev pub IsWhole : List Packet → Trace → Type 0
IsWhole pkts (s, out) = IsStream pkts 0 out × (first (length out) pkts ≡ none)

-- The order in which packets arrive, the times and the number of copies do not matter: two new
-- sequencers that get packets of one sender, with numbers below the last `u64`, both return and give
-- out the same packets in the same order, if the same numbers never arrive at either.
pub run_reordered :
    (sender : ℕ → Packet) (deadline deadline' now now' : ℕ) (l l' : List (ℕ × Packet))
    → All IsEarlyArrival l
    → All IsEarlyArrival l'
    → All (IsNumbered sender) (packets l)
    → All (IsNumbered sender) (packets l')
    → IsSameLoss (packets l) (packets l')
    → Returns
        (λ r. Returns (λ r'. r.1 ≡ r'.1) (run (map arrival l') (new deadline' now', [])))
        (run (map arrival l) (new deadline now, []))
run_reordered sender deadline deadline' now now' l l' early early' numbered numbered' same =
    let other = run (map arrival l') (new deadline' now', []) in
    Returns-mono (IsWhole (packets l)) (λ r. Returns (λ r'. r.1 ≡ r'.1) other) _
      (run-IsStream deadline now l early)
      (λ r h.
        Returns-mono (IsWhole (packets l')) (λ r'. r.1 ≡ r'.1) other
          (run-IsStream deadline' now' l' early')
          (λ r' h'.
            streams_agree sender (packets l) (packets l') numbered numbered' same 0 r.1 r'.1 h.0
              h'.0 (subst (λ m. first m (packets l) ≡ none) (omega arith) h.1)
              (subst (λ m. first m (packets l') ≡ none) (omega arith) h'.1)))
