-- ===== src/ConnectionManager/Timers.antt =====
-- The three timers of src/connection_manager.rs.
use mpconn.Base.{
  ℕ, Bool, none, some, List, [], ◌∷◌, length, if◌then◌else◌, Outcome, done, ◌>>=◌, no_receiver,
}
use mpconn.Bincode.{Bincode, serialize_unwrap}
use mpconn.Messages.{Bytes, Packet, keepalive}
use mpconn.PeerList
use mpconn.Sequencer
use mpconn.Sequencer.{Sequencer}
use mpconn.Sequencer.Deliver.{deliver}
use mpconn.Sink.{Sink, put}
use mpconn.ConnectionManager.State.{
  ConnectionManager, flush_interface_log, keepalive_message, send_to_remotes,
}

-- The body of the loop on the sequencer's timer.
unfoldable pub forward : Packet → Sink Bytes → Outcome (Sink Bytes)
forward pkt to_local = put no_receiver pkt.bytes to_local

-- `advance_queue` and the loop, past the deadline.
unfoldable pub drain_late : ℕ → Sequencer → Sink Bytes → Outcome (Sequencer × Sink Bytes)
drain_late now s to_local =
    let s' = Sequencer.advance_queue s in deliver (length s'.packet_queue) now forward s' to_local

unfoldable pub drain_if_late : Bool → ℕ → Sequencer → Sink Bytes → Outcome (Sequencer × Sink Bytes)
unfolding drain_late
drain_if_late late now s to_local = if late then drain_late now s to_local else done (s, to_local)

-- What the loop leaves goes back to where it was borrowed.
abbrev pub store_expiry : ℕ → ConnectionManager → Sequencer × Sink Bytes → Outcome ConnectionManager
store_expiry peer_id cm (s, to_local) = done (record cm {
  peer_list = PeerList.set_peer_sequencer peer_id s cm.peer_list;
  packets_to_local = to_local;
})

-- One peer's turn on the sequencer's timer.
unfoldable pub expire_peer : ℕ → ℕ → ConnectionManager → Outcome ConnectionManager
unfolding drain_if_late
expire_peer now peer_id cm = elim (PeerList.get_peer_sequencer peer_id cm.peer_list) [
  | none ↦ done cm
  | some s ↦ do
    late ← Sequencer.is_deadline_exceeded now s
    r ← drain_if_late late now s cm.packets_to_local
    store_expiry peer_id cm r
]

unfoldable pub expire_peers : ℕ → List ℕ → ConnectionManager → Outcome ConnectionManager
expire_peers now [] cm = done cm
expire_peers now (peer_id ∷ peer_ids) cm = expire_peer now peer_id cm >>= expire_peers now peer_ids

unfoldable pub handle_sequencer_tick : ℕ → ConnectionManager → Outcome ConnectionManager
handle_sequencer_tick now cm = expire_peers now (PeerList.get_peer_ids cm.peer_list) cm

-- The lengths of the queues go to the debug log, which is not modelled.
unfoldable pub handle_maintenance_tick : ℕ → ConnectionManager → Outcome ConnectionManager
handle_maintenance_tick now cm = do
  pruned ← PeerList.prune_stale_peers now cm.peer_list
  flush_interface_log (record cm { peer_list = pruned })

unfoldable pub handle_keepalive : Bincode → ConnectionManager → Outcome ConnectionManager
handle_keepalive codec cm = do
  serialized_packet ← serialize_unwrap codec (keepalive (keepalive_message cm))
  send_to_remotes (PeerList.get_all_connections cm.peer_list) serialized_packet cm
