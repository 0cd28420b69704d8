-- ===== src/ConnectionManager/Safety/Timers.antt =====
-- The timers of src/connection_manager.rs and its invariant.
use mpconn.PeerList
use mpconn.PeerList.{PeerList}
use mpconn.ConnectionManager.State.{
  ConnectionManager, LogEntry, keepalive_message, flush_interface_log, flush,
}
use mpconn.ConnectionManager.Sends.{send_to_remotes-sent}
use mpconn.ConnectionManager.Safety.{IsSafe, IsLogging, with_list, sent-IsSafe, IsRouted-mono}
use mpconn.Bincode.{Bincode, IsBincode, serialize_unwrap_total}
use mpconn.Messages.{Bytes, keepalive}
use mpconn.Base.{
  ℕ, ◌≡◌, refl, Option-cases, inl, inr, Bool, true, false, Option, none, some, List, [], ◌∷◌, done,
  Returns, >>=-Returns, no_receiver,
}
use mpconn.PeerList.Counters.{set_peer_sequencer-IsKnown}
use mpconn.PeerList.Validity
use mpconn.PeerList.Validity.{IsPeerSequencer}
use mpconn.PeerList.Delivery.{
  deliver-Returns, advance_queue-IsPeerSequencer, get_peer_sequencer-IsPeerSequencer,
}
use mpconn.Sequencer
use mpconn.Sequencer.Timer.{deadline_checked}
use mpconn.Sequencer.{Sequencer}
use mpconn.Sink.{Sink, IsOpen, put-extended}
use mpconn.Base.{ltb, ◌-◌}
use mpconn.PeerList.Pruning.{prune_stale_peers-IsValid}
use mpconn.ConnectionManager.Timers.{
  forward, drain_late, drain_if_late, expire_peer, expire_peers, handle_sequencer_tick,
  handle_maintenance_tick, handle_keepalive, store_expiry,
}

-- What the loop leaves.
abbrev IsDelivered : ℕ → ℕ → Sequencer × Sink Bytes → Type 0
IsDelivered now peer_id (s, to_local) = IsPeerSequencer now peer_id s × IsOpen to_local

drain_if_late-IsDelivered :
    (late : Bool) (now peer_id : ℕ) (s : Sequencer) (to_local : Sink Bytes)
    → IsPeerSequencer now peer_id s
    → IsOpen to_local
    → Returns (IsDelivered now peer_id) (drain_if_late late now s to_local)
unfolding drain_if_late drain_late forward
drain_if_late-IsDelivered false now peer_id s to_local v o = (v, o)
drain_if_late-IsDelivered true now peer_id s to_local v o =
    deliver-Returns now peer_id (λ sink. IsOpen sink) forward
      (λ pkt sink _ open_sink. rw (put-extended no_receiver pkt.bytes sink open_sink) open_sink)
      (Sequencer.advance_queue s) to_local (advance_queue-IsPeerSequencer now peer_id s v) o

store_expiry-IsSafe :
    (now peer_id : ℕ) (cm : ConnectionManager) (r : Sequencer × Sink Bytes)
    → IsSafe now cm
    → IsDelivered now peer_id r
    → Returns (IsSafe now) (store_expiry peer_id cm r)
store_expiry-IsSafe now peer_id cm (seq, to_local) s (v, o) = record {
  list = Validity.set_peer_sequencer-IsValid peer_id now seq cm.peer_list v s.list;
  routed =
      IsRouted-mono cm.peer_list (PeerList.set_peer_sequencer peer_id seq cm.peer_list)
        cm.traffic_director (λ j. set_peer_sequencer-IsKnown peer_id j seq cm.peer_list) s.routed;
  remotes = s.remotes;
  local = o;
  logging = s.logging;
  own_id = s.own_id;
  own_ip = s.own_ip;
}

expire_peer-IsSafe :
    (now peer_id : ℕ) (cm : ConnectionManager)
    → IsSafe now cm
    → Returns (IsSafe now) (expire_peer now peer_id cm)
unfolding expire_peer
expire_peer-IsSafe now peer_id cm s =
    elim (Option-cases (PeerList.get_peer_sequencer peer_id cm.peer_list)) [
      | inl unknown ↦ rw (unknown, expire_peer) s
      | inr (seq, found) ↦
          let valid =
            get_peer_sequencer-IsPeerSequencer now peer_id seq cm.peer_list s.list found in
          let late = ltb seq.deadline (now - seq.last_update) in
          rw (found, expire_peer, deadline_checked now seq valid.clock)
            (>>=-Returns (IsDelivered now peer_id) (IsSafe now)
              (drain_if_late late now seq cm.packets_to_local) (store_expiry peer_id cm)
              (drain_if_late-IsDelivered late now peer_id seq cm.packets_to_local valid s.local)
              (λ r. store_expiry-IsSafe now peer_id cm r s))
    ]

expire_peers-IsSafe :
    (now : ℕ) (peer_ids : List ℕ) (cm : ConnectionManager)
    → IsSafe now cm
    → Returns (IsSafe now) (expire_peers now peer_ids cm)
unfolding expire_peers
expire_peers-IsSafe now [] cm s = s
expire_peers-IsSafe now (peer_id ∷ peer_ids) cm s =
    >>=-Returns (IsSafe now) (IsSafe now) (expire_peer now peer_id cm) (expire_peers now peer_ids)
      (expire_peer-IsSafe now peer_id cm s) (expire_peers-IsSafe now peer_ids)

pub handle_sequencer_tick-IsSafe :
    (now : ℕ) (cm : ConnectionManager)
    → IsSafe now cm
    → Returns (IsSafe now) (handle_sequencer_tick now cm)
unfolding handle_sequencer_tick
handle_sequencer_tick-IsSafe now cm s = expire_peers-IsSafe now _ cm s

flush_lem :
    (log : Option (Sink LogEntry)) (cm : ConnectionManager) → IsLogging log → flush log cm ≡ done cm
unfolding flush
flush_lem none cm h = refl
flush_lem (some if_log) cm h = rw h

pub handle_maintenance_tick-IsSafe :
    (now : ℕ) (cm : ConnectionManager)
    → IsSafe now cm
    → Returns (IsSafe now) (handle_maintenance_tick now cm)
unfolding handle_maintenance_tick flush_interface_log
handle_maintenance_tick-IsSafe now cm s =
    >>=-Returns _ (IsSafe now) (PeerList.prune_stale_peers now cm.peer_list)
      (λ pruned. flush_interface_log (record cm { peer_list = pruned }))
      (prune_stale_peers-IsValid now cm.peer_list s.list)
      (λ pruned r.
        rw (flush_lem cm.interface_logger (record cm { peer_list = pruned }) s.logging)
          (with_list now pruned cm r.0 r.1 s))

pub handle_keepalive-IsSafe :
    (codec : Bincode) (now : ℕ) (cm : ConnectionManager)
    → IsBincode codec
    → IsSafe now cm
    → Returns (IsSafe now) (handle_keepalive codec cm)
unfolding handle_keepalive
handle_keepalive-IsSafe codec now cm law s =
    let (serialized, e, _) =
      serialize_unwrap_total codec (keepalive (keepalive_message cm)) law (s.own_id, s.own_ip) in
    rw (e, send_to_remotes-sent _ serialized cm s.remotes) (sent-IsSafe now _ cm s)
