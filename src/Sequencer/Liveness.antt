-- ===== src/Sequencer/Liveness.antt =====
-- src/sequencer.rs under its timer alone: what becomes of the packets that wait behind gaps.
use mathlib.Core.List.{append-nil, append_assoc}
use native.Mathlib.Nat.{zero-mul, suc-mul}
use mpconn.Base.{
  ℕ, suc, ◌+◌, ◌-◌, ◌≤◌, ◌<◌, ◌%◌, ◌^◌, ◌≡◌, refl, ap, sym, subst, ◌∙◌, List, [], ◌∷◌, ◌++◌, map,
  length, lt→ltb, ltb, ltb→lt, zero, false, ◌*◌, ◌==◌, Bool-cases, inl, inr, arith, done,
}
use mpconn.Base.BTreeMap.{BTreeMap}
use mpconn.Messages.{Packet}
use mpconn.Sequencer.{Sequencer}
use mpconn.Sequencer.Deliver.{consecutive, drained}
use mpconn.Sequencer.History.{ticks, step, run, drain-drained}
use mpconn.Sequencer.Timer.{head_seq, advanced, advance_queue-advanced, deadline_checked}

-- The packets of a queue, in its order.
abbrev pub waiting : BTreeMap Packet → List Packet
waiting q = map (λ e. e.1) q

-- A drain moves packets from the head of the queue and loses none.
waiting-drained :
    (now : ℕ) (q : BTreeMap Packet) (s : Sequencer)
    → waiting q ≡ consecutive s.next_seq q ++ waiting (drained now q s).packet_queue
unfolding consecutive drained
waiting-drained now [] s = refl
waiting-drained now ((key, pkt) ∷ q) s = elim (Bool-cases (key == s.next_seq)) [
  | inl due ↦ rw due (
      ap (λ rest. pkt ∷ rest)
        (waiting-drained now q
          (record s { next_seq = (s.next_seq + 1) % 2 ^ 64; last_update = now })))
  | inr gap ↦ rw gap refl
]

-- What a drain leaves of the rest of the sequencer.
drained-length :
    (now : ℕ) (q : BTreeMap Packet) (s : Sequencer)
    → length (drained now q s).packet_queue ≤ length q
unfolding drained
drained-length now [] s = omega arith
drained-length now ((key, pkt) ∷ q) s = ground (
  arith,
  drained-length now q (record s { next_seq = (s.next_seq + 1) % 2 ^ 64; last_update = now }),
)

drained-deadline :
    (now : ℕ) (q : BTreeMap Packet) (s : Sequencer) → (drained now q s).deadline ≡ s.deadline
unfolding drained
drained-deadline now [] s = refl
drained-deadline now ((key, pkt) ∷ q) s = ground (
  arith,
  drained-deadline now q (record s { next_seq = (s.next_seq + 1) % 2 ^ 64; last_update = now }),
)

-- The loop leaves the time of its last update, `now` if there was one.
drained-last_update :
    (now : ℕ) (q : BTreeMap Packet) (s : Sequencer)
    → s.last_update ≡ now
    → (drained now q s).last_update ≡ now
unfolding drained
drained-last_update now [] s h = h
drained-last_update now ((key, pkt) ∷ q) s h = ground (
  arith,
  drained-last_update now q (record s { next_seq = (s.next_seq + 1) % 2 ^ 64; last_update = now }),
)

-- A timer that ticks at least once in each period, from the time `last` on.
abbrev pub IsTimer : ℕ → ℕ → List ℕ → Type 0
IsTimer period last [] = Unit
IsTimer period last (now ∷ times) = (last ≤ now) × (now ≤ last + period) × IsTimer period now times

-- The time of its last tick.
abbrev pub final : ℕ → List ℕ → ℕ
final last [] = last
final last (now ∷ times) = final now times

-- The sequencer past its deadline.
abbrev passed : ℕ → Sequencer → Sequencer
passed now s = drained now s.packet_queue (advanced s)

late_tick :
    (now : ℕ) (s : Sequencer) (out : List Packet)
    → s.last_update + s.deadline < now
    → step (ticks now) (s, out)
      ≡ done (passed now s, out ++ consecutive (advanced s).next_seq s.packet_queue)
unfolding step
late_tick now s out h =
    rw
      (
        deadline_checked now s (omega arith),
        lt→ltb s.deadline (now - s.last_update) (omega arith),
        advance_queue-advanced s,
      )
      (drain-drained now (advanced s) out)

-- A late tick makes the queue shorter, unless it is empty.
passed-length :
    (now n : ℕ) (s : Sequencer)
    → length s.packet_queue ≤ suc n
    → length (passed now s).packet_queue ≤ n
unfolding drained
passed-length now n s h = shorter s.packet_queue h
  where
    shorter :
        (q : BTreeMap Packet)
        → length q ≤ suc n
        → length (drained now q (record s { next_seq = head_seq q s.next_seq })).packet_queue ≤ n
    shorter [] h = omega arith
    shorter ((key, pkt) ∷ q) h = ground (
      arith,
      drained-length now q (record s { next_seq = (key + 1) % 2 ^ 64; last_update = now }),
    )

-- A late tick takes a packet off a queue that is not empty.
passed-last_update :
    (now key : ℕ) (pkt : Packet) (q : BTreeMap Packet) (s : Sequencer)
    → s.packet_queue ≡ (key, pkt) ∷ q
    → (passed now s).last_update ≡ now
unfolding drained
passed-last_update now key pkt q s e = rw e (
    ground (
      arith,
      drained-last_update now q (record s { next_seq = (key + 1) % 2 ^ 64; last_update = now })
          refl,
    ))

early_tick :
    (now : ℕ) (s : Sequencer) (out : List Packet)
    → s.last_update ≤ now
    → now ≤ s.last_update + s.deadline
    → step (ticks now) (s, out) ≡ done (s, out)
unfolding step
early_tick now s out h early =
    let on_time : ltb s.deadline (now - s.last_update) ≡ false = ground arith in
    rw (deadline_checked now s h, on_time) refl

-- On an empty queue the timer does nothing.
idle_tick :
    (now : ℕ) (s : Sequencer) (out : List Packet)
    → s.last_update ≤ now
    → step (ticks now) (record s { packet_queue = [] }, out)
      ≡ done (record s { packet_queue = [] }, out)
unfolding drained consecutive
idle_tick now s out h = elim (Bool-cases (ltb (s.last_update + s.deadline) now)) [
  | inl late ↦
      late_tick now (record s { packet_queue = [] }) out (ltb→lt _ now late)
      ∙ ap (λ pkts. done (record s { packet_queue = [] }, pkts)) (append-nil out)
  | inr early ↦ early_tick now (record s { packet_queue = [] }) out h (ground (arith, early))
]

idle_ticks :
    (period last : ℕ) (times : List ℕ) (s : Sequencer) (out : List Packet)
    → s.last_update ≤ last
    → IsTimer period last times
    → run (map ticks times) (record s { packet_queue = [] }, out)
      ≡ done (record s { packet_queue = [] }, out)
unfolding run
idle_ticks period last [] s out h timer = refl
idle_ticks period last (now ∷ times) s out h timer =
    rw (idle_tick now s out (omega arith)) (idle_ticks period now times s out (omega arith) timer.2)

-- `n` times `k`.
abbrev rounds : ℕ → ℕ → ℕ
rounds zero k = 0
rounds (suc n) k = k + rounds n k

rounds-mul : (n k : ℕ) → rounds n k ≡ n * k
rounds-mul zero k = omega (arith, zero-mul k)
rounds-mul (suc n) k = omega (arith, suc-mul n k, rounds-mul n k)

module _ (period : ℕ) where
  -- All packets of the queue come out in the run of the timer.
  abbrev Empties : List ℕ → BTreeMap Packet → Sequencer → List Packet → Type 0
  Empties times q s out =
      (s' : Sequencer) × (run (map ticks times) (record s { packet_queue = q }, out)
        ≡ done (s', out ++ waiting q))
      × (s'.packet_queue ≡ [])

  idle-Empties :
      (last : ℕ) (times : List ℕ) (s : Sequencer) (out : List Packet)
      → s.last_update ≤ last
      → IsTimer period last times
      → Empties times [] s out
  idle-Empties last times s out h timer = (
    record s { packet_queue = [] },
    idle_ticks period last times s out h timer
        ∙ ap (λ pkts. done (record s { packet_queue = [] }, pkts)) (sym (append-nil out)),
    refl,
  )

  -- If at most `n` packets wait, and the sequencer was not late at the time `last`.
  waiting_rounds :
      (n last : ℕ) (times : List ℕ) (q : BTreeMap Packet) (s : Sequencer) (out : List Packet)
      → length q ≤ n
      → IsTimer period last times
      → s.last_update ≤ last
      → last ≤ s.last_update + s.deadline
      → s.last_update + rounds n (s.deadline + period) < final last times
      → Empties times q s out
  unfolding run
  waiting_rounds n last times [] s out h timer before early enough =
      idle-Empties last times s out before timer
  waiting_rounds zero last times (e ∷ q) s out h timer before early enough = absurd (omega arith)
  waiting_rounds (suc n) last [] (e ∷ q) s out h timer before early enough = absurd (omega arith)
  waiting_rounds (suc n) last (now ∷ times) (e ∷ q) s out h timer before early enough =
      elim (Bool-cases (ltb (s.last_update + s.deadline) now)) [
        | inl late ↦
            let full : Sequencer = record s { packet_queue = e ∷ q } in
            let lateness : s.last_update + s.deadline < now = ltb→lt _ now late in
            let next = passed now full in
            let same = drained-deadline now (e ∷ q) (advanced full) in
            let clock = passed-last_update now e.0 e.1 q full refl in
            let given = out ++ consecutive (advanced full).next_seq (e ∷ q) in
            let (s', eq, empty) =
              waiting_rounds n now times next.packet_queue next given (passed-length now n full h)
                timer.2 (omega (arith, clock)) (omega (arith, clock))
                (subst (λ d. next.last_update + rounds n (d + period) < final now times) (sym same)
                  (omega (arith, clock))) in
            (
              s',
              rw (late_tick now full out lateness, eq)
                  (ap (λ pkts. done (s', pkts))
                    (append_assoc out _ _
                      ∙ ap (λ pkts. out ++ pkts)
                          (sym (waiting-drained now (e ∷ q) (advanced full))))),
              empty,
            )
        | inr on_time ↦
            let here : now ≤ s.last_update + s.deadline = ground (arith, on_time) in
            let (s', eq, empty) =
              waiting_rounds (suc n) now times (e ∷ q) s out h timer.2 (omega arith) here enough in
            (
              s',
              rw (early_tick now (record s { packet_queue = e ∷ q }) out (omega arith) here) eq,
              empty,
            )
      ]

-- No packet waits for ever. If nothing more arrives and the timer ticks at least once in each period,
-- then each gap costs at most the deadline and one period: once the timer has run, from the last
-- update on, for longer than that time for each packet in the queue, all packets of the queue have
-- come out, in its order, and the queue is empty.
pub run-waiting :
    (period : ℕ) (times : List ℕ) (s : Sequencer) (out : List Packet)
    → IsTimer period s.last_update times
    → s.last_update + length s.packet_queue * (s.deadline + period) < final s.last_update times
    → (s' : Sequencer) × (run (map ticks times) (s, out) ≡ done (s', out ++ waiting s.packet_queue))
      × (s'.packet_queue ≡ [])
run-waiting period times s out timer enough =
    waiting_rounds period (length s.packet_queue) s.last_update times s.packet_queue s out
      (omega arith) timer (omega arith) (omega arith)
      (omega (arith, rounds-mul (length s.packet_queue) (s.deadline + period), enough))
