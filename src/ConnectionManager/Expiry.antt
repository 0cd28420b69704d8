-- ===== src/ConnectionManager/Expiry.antt =====
-- What the sequencer's timer of src/connection_manager.rs does to one peer, in closed form.
use mpconn.Base.{
  ℕ, ◌-◌, ◌≤◌, ◌≡◌, sym, ap, ◌∙◌, true, false, Bool, some, List, [], length, ◌∷◌, ltb,
  if◌then◌else◌, done, ◌>>=◌, no_receiver,
}
use mpconn.Messages.{Bytes, Packet}
use mpconn.PeerList
use mpconn.PeerList.Counters.{set_peer_sequencer_same}
use mpconn.Sequencer.{Sequencer}
use mpconn.Sequencer.Deliver.{deliver, each, consecutive, drained, deliver-consecutive}
use mpconn.Sequencer.Timer.{advanced, advance_queue-advanced, deadline_checked}
use mpconn.Sink.{Sink, IsOpen, extended, put-extended, extended-nil, extended-extended}
use mpconn.ConnectionManager.State.{ConnectionManager}
use mpconn.ConnectionManager.Timers.{forward, drain_late, drain_if_late, store_expiry, expire_peer}
use mpconn.ConnectionManager.Receives.{payloads}

each-forward :
    (pkts : List Packet) (to_local : Sink Bytes)
    → IsOpen to_local
    → each forward pkts to_local ≡ done (extended (payloads pkts) to_local)
unfolding each forward
each-forward [] to_local h = ap done (sym (extended-nil to_local))
each-forward (pkt ∷ pkts) to_local h = rw (put-extended no_receiver pkt.bytes to_local h) (
    each-forward pkts (extended (pkt.bytes ∷ []) to_local) h
    ∙ ap done (extended-extended (pkt.bytes ∷ []) (payloads pkts) to_local))

-- The sequencer past its deadline: it goes on at the head of the queue.
abbrev pub skipped : ℕ → Sequencer → Sequencer
skipped now s = drained now (advanced s).packet_queue (advanced s)

-- The packets from the head of the queue up to the next gap.
abbrev pub overdue : Sequencer → List Packet
overdue s = consecutive (advanced s).next_seq s.packet_queue

-- The state after a peer's overdue packets were given out.
abbrev pub after_expiry : ℕ → ℕ → Sequencer → ConnectionManager → ConnectionManager
after_expiry now peer_id s cm = record cm {
  peer_list = PeerList.set_peer_sequencer peer_id (skipped now s) cm.peer_list;
  packets_to_local = extended (payloads (overdue s)) cm.packets_to_local;
}

drain_late-skipped :
    (now : ℕ) (s : Sequencer) (to_local : Sink Bytes)
    → IsOpen to_local
    → drain_late now s to_local ≡ done (skipped now s, extended (payloads (overdue s)) to_local)
unfolding drain_late
drain_late-skipped now s to_local h =
    ap (λ (s' : Sequencer). deliver (length s'.packet_queue) now forward s' to_local)
      (advance_queue-advanced s)
    ∙ deliver-consecutive now forward (advanced s) to_local
    ∙ ap (λ r. r >>= λ st. done (skipped now s, st)) (each-forward (overdue s) to_local h)

expire_turn :
    (late : Bool) (now peer_id : ℕ) (s : Sequencer) (cm : ConnectionManager)
    → IsOpen cm.packets_to_local
    → PeerList.get_peer_sequencer peer_id cm.peer_list ≡ some s
    → (drain_if_late late now s cm.packets_to_local >>= store_expiry peer_id cm)
      ≡ done (if late then after_expiry now peer_id s cm else cm)
unfolding drain_if_late
expire_turn true now peer_id s cm h found =
    ap (λ r. r >>= store_expiry peer_id cm) (drain_late-skipped now s cm.packets_to_local h)
expire_turn false now peer_id s cm h found =
    ap (λ list. done (record cm { peer_list = list }))
      (set_peer_sequencer_same peer_id s cm.peer_list found)

-- On the sequencer's timer a peer that waited no longer than its deadline is left as it is. Past the
-- deadline, the gap at the head of the queue is given up: the packets from there to the next gap are
-- written to the local interface in order, the sequencer goes on behind them, and nothing else
-- changes.
pub expire_peer-after_expiry :
    (now peer_id : ℕ) (s : Sequencer) (cm : ConnectionManager)
    → IsOpen cm.packets_to_local
    → PeerList.get_peer_sequencer peer_id cm.peer_list ≡ some s
    → s.last_update ≤ now
    → expire_peer now peer_id cm
      ≡ done (if ltb s.deadline (now - s.last_update) then after_expiry now peer_id s cm else cm)
unfolding expire_peer
expire_peer-after_expiry now peer_id s cm h found clock =
    rw (found, expire_peer, deadline_checked now s clock)
      (expire_turn (ltb s.deadline (now - s.last_update)) now peer_id s cm h found)
