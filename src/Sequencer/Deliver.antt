-- ===== src/Sequencer/Deliver.antt =====
-- The loop `while sequencer.have_next_packet() { if let Some(p) = sequencer.get_next_packet() … }`
-- of src/connection_manager.rs, which the handler of a packet and the sequencer's timer both run,
-- with its body as a parameter; and the same loop in closed form.
use mpconn.Base.{
  ℕ, zero, suc, ◌+◌, ◌≤◌, ◌%◌, ◌^◌, ◌≡◌, refl, true, false, Bool-cases, none, some, inl, inr, List,
  [], ◌∷◌, ◌==◌, if◌then◌else◌, length, arith, Outcome, done, ◌>>=◌, bind_cong, bind_assoc, sym,
  ◌∙◌,
}
use mpconn.Base.BTreeMap.{BTreeMap}
use mpconn.Messages.{Packet}
use mpconn.Sequencer.{Sequencer, get_next_packet, have_next_packet}

module _ {ℓ} {S : Type ℓ} where
  -- Each round takes a packet off the queue, so its length bounds the rounds.
  unfoldable pub deliver :
      ℕ → ℕ → (Packet → S → Outcome S) → Sequencer → S → Outcome (Sequencer × S)
  deliver zero now body s st = done (s, st)
  deliver (suc fuel) now body s st = elim (have_next_packet s) [
    | false ↦ done (s, st)
    | true ↦
        let (s', next) = get_next_packet now s in
        elim next [
          | none ↦ deliver fuel now body s' st
          | some pkt ↦ body pkt st >>= λ st'. deliver fuel now body s' st'
        ]
  ]

  -- The body run on the packets of a list, in order.
  unfoldable pub each : (Packet → S → Outcome S) → List Packet → S → Outcome S
  each body [] st = done st
  each body (pkt ∷ pkts) st = body pkt st >>= each body pkts

-- The longest run of packets numbered `n`, `n + 1`, … at the head of the queue.
unfoldable pub consecutive : ℕ → BTreeMap Packet → List Packet
consecutive n [] = []
consecutive n ((key, pkt) ∷ q) =
    let rest = consecutive ((n + 1) % 2 ^ 64) q in if key == n then pkt ∷ rest else []

-- The sequencer without that run.
unfoldable pub drained : ℕ → BTreeMap Packet → Sequencer → Sequencer
drained now [] s = record s { packet_queue = [] }
drained now ((key, pkt) ∷ q) s =
    let rest =
      drained now q (record s { next_seq = (s.next_seq + 1) % 2 ^ 64; last_update = now }) in
    if key == s.next_seq then rest else record s { packet_queue = (key, pkt) ∷ q }

module _ {ℓ} {S : Type ℓ} (now : ℕ) (body : Packet → S → Outcome S) where
  deliver_due :
      (fuel key : ℕ) (pkt : Packet) (q : BTreeMap Packet) (s : Sequencer) (st : S)
      → (key == s.next_seq) ≡ true
      → deliver (suc fuel) now body (record s { packet_queue = (key, pkt) ∷ q }) st ≡ (
          body pkt st
          >>= deliver fuel now body (record s {
            packet_queue = q;
            next_seq = (s.next_seq + 1) % 2 ^ 64;
            last_update = now;
          }))
  unfolding deliver get_next_packet have_next_packet
  deliver_due fuel key pkt q s st due = ground arith

  deliver_gap :
      (fuel key : ℕ) (pkt : Packet) (q : BTreeMap Packet) (s : Sequencer) (st : S)
      → (key == s.next_seq) ≡ false
      → deliver (suc fuel) now body (record s { packet_queue = (key, pkt) ∷ q }) st
        ≡ done (record s { packet_queue = (key, pkt) ∷ q }, st)
  unfolding deliver get_next_packet have_next_packet
  deliver_gap fuel key pkt q s st gap = ground arith

  deliver_queue :
      (fuel : ℕ) (q : BTreeMap Packet) (s : Sequencer) (st : S)
      → length q ≤ fuel
      → deliver fuel now body (record s { packet_queue = q }) st
        ≡ (each body (consecutive s.next_seq q) st >>= λ st'. done (drained now q s, st'))
  unfolding deliver each consecutive drained have_next_packet
  deliver_queue zero [] s st h = refl
  deliver_queue (suc fuel) [] s st h = refl
  deliver_queue zero ((key, pkt) ∷ q) s st h = absurd (omega arith)
  deliver_queue (suc fuel) ((key, pkt) ∷ q) s st h = elim (Bool-cases (key == s.next_seq)) [
    | inl due ↦
        rw (deliver_due fuel key pkt q s st due, due)
          (bind_cong (body pkt st) _ _ (λ st'.
              deliver_queue fuel q
                (record s { next_seq = (s.next_seq + 1) % 2 ^ 64; last_update = now }) st'
                (omega arith))
            ∙ sym (bind_assoc (body pkt st) _ _))
    | inr gap ↦ rw (deliver_gap fuel key pkt q s st gap, gap)
  ]

  -- The loop runs its body on exactly that run of packets, in order, and leaves the rest.
  pub deliver-consecutive :
      (s : Sequencer) (st : S)
      → deliver (length s.packet_queue) now body s st ≡ (
          each body (consecutive s.next_seq s.packet_queue) st >>= λ st'.
          done (drained now s.packet_queue s, st'))
  deliver-consecutive s st = deliver_queue (length s.packet_queue) s.packet_queue s st (omega arith)

have_next_packet_queue :
    (now : ℕ) (q : BTreeMap Packet) (s : Sequencer) → have_next_packet (drained now q s) ≡ false
unfolding drained have_next_packet
have_next_packet_queue now [] s = refl
have_next_packet_queue now ((key, pkt) ∷ q) s = ground (
  arith,
  have_next_packet_queue now q
      (record s { next_seq = (s.next_seq + 1) % 2 ^ 64; last_update = now }),
)

-- Nothing that could be delivered is left.
pub have_next_packet-drained :
    (now : ℕ) (s : Sequencer) → have_next_packet (drained now s.packet_queue s) ≡ false
have_next_packet-drained now s = have_next_packet_queue now s.packet_queue s

module _ {ℓ} {S : Type ℓ} (now : ℕ) (body : Packet → S → Outcome S) where
  -- The loop ends: every number of rounds that is at least the length of the queue gives the same
  -- result, that of the body on the run of packets that are due, and then no packet is due.
  pub deliver_enough :
      (fuel : ℕ) (s : Sequencer) (st : S)
      → length s.packet_queue ≤ fuel
      → (deliver fuel now body s st ≡ (
          each body (consecutive s.next_seq s.packet_queue) st >>= λ st'.
          done (drained now s.packet_queue s, st')))
        × (have_next_packet (drained now s.packet_queue s) ≡ false)
  deliver_enough fuel s st h =
      (deliver_queue now body fuel s.packet_queue s st h, have_next_packet-drained now s)
