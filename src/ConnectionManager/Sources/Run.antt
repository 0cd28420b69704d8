-- ===== src/ConnectionManager/Sources/Run.antt =====
-- Where the packets come from that the loop of src/connection_manager.rs writes to the local interface.
use mpconn.Base.{
  ℕ, ◌≡◌, subst, All, Option, Option-cases, inl, inr, some, none, List, [], ◌∷◌, Yields, >>=-Yields,
  Yields-Returns, Returns, Returns-mono,
}
use mpconn.Bincode.{Bincode, IsBincode}
use mpconn.Messages.{
  Bytes, Packet, Messages, packet, keepalive, IncomingUnparsedPacket, OutgoingUdpPacket,
}
use mpconn.PeerList
use mpconn.Settings.{SettingsFile}
use mpconn.Sink.{Sink, IsOpen}
use mpconn.TrafficDirector.{SlicedPacket}
use mpconn.ConnectionManager.State
use mpconn.ConnectionManager.State.{
  ConnectionManager, LogEntry, send_copies, send_to_remotes, write_interface_log, flush,
  flush_interface_log,
}
use mpconn.ConnectionManager.Incoming.{handle_incoming_keepalive, handle_message, handle_udp_packet}
use mpconn.ConnectionManager.Outgoing.{path_of, handle_packet_from_local}
use mpconn.ConnectionManager.Timers.{
  handle_sequencer_tick, handle_maintenance_tick, handle_keepalive,
}
use mpconn.ConnectionManager.Run.{
  Event, new_raw_udp_packet, new_packet_from_local, global_sequencer_tick, maintenance_tick,
  keepalive_tick, step, run,
}
use mpconn.ConnectionManager.Safety.{IsSafe, IsLogging}
use mpconn.ConnectionManager.Safety.Run.{IsSettings, IsSchedule, run-Returns}
use mpconn.ConnectionManager.Sources.{Holds, new-Holds, add_peer-Holds, prune_stale_peers-Holds}
use mpconn.ConnectionManager.Sources.Handlers.{
  IsPayload, Passes, serialize-Passes, follow-Passes, announce-Passes, write_interface_log-Passes,
  flush-Passes, handle_incoming_packet-Passes, expire_peers-Passes,
}

abbrev pub carried : Option Messages → List Packet → List Packet
carried none pkts = pkts
carried (some (packet pkt)) pkts = pkt ∷ pkts
carried (some (keepalive k)) pkts = pkts

-- The packets in the datagrams that the remotes received.
abbrev pub received_packets : Bincode → List (ℕ × Event) → List Packet
received_packets codec [] = []
received_packets codec ((now, new_raw_udp_packet (some raw)) ∷ events) =
    carried (codec.deserialize raw.bytes) (received_packets codec events)
received_packets codec ((now, _) ∷ events) = received_packets codec events

module _ (P : Packet → Type 0) (codec : Bincode) (slicer : SlicedPacket) where
  handle_message-Passes :
      (now : ℕ) (raw : IncomingUnparsedPacket) (message : Messages) (cm : ConnectionManager)
      → All P (carried (some message) [])
      → Passes P cm
      → Yields (Passes P) (handle_message codec slicer now raw message cm)
  unfolding handle_message handle_incoming_keepalive
  handle_message-Passes now raw (packet pkt) cm p s =
      >>=-Yields (Passes P) (Passes P) (write_interface_log now raw.receiver_interface pkt.seq cm) _
        (write_interface_log-Passes P now raw.receiver_interface pkt.seq cm s)
        (λ after. handle_incoming_packet-Passes P slicer now pkt after p.0)
  handle_message-Passes now raw (keepalive k) cm p s =
      announce-Passes P codec k cm.traffic_director _ (record {
        queued = add_peer-Holds P k.peer_id raw.received_from now cm.peer_list s.queued;
        written = s.written;
      })

  handle_udp_packet-Passes :
      (now : ℕ) (raw : IncomingUnparsedPacket) (cm : ConnectionManager)
      → All P (carried (codec.deserialize raw.bytes) [])
      → Passes P cm
      → Yields (Passes P) (handle_udp_packet codec slicer now raw cm)
  unfolding handle_udp_packet
  handle_udp_packet-Passes now raw cm p s = elim (Option-cases (codec.deserialize raw.bytes)) [
    | inl e ↦ rw (e, handle_udp_packet) s
    | inr (message, e) ↦
        let p' : All P (carried (some message) []) = subst (λ m. All P (carried m [])) e p in
        rw (e, handle_udp_packet) (handle_message-Passes now raw message cm p' s)
  ]

  step-Passes :
      (now : ℕ) (event : Event) (cm : ConnectionManager)
      → All P (received_packets codec ((now, event) ∷ []))
      → Passes P cm
      → Yields (Passes P) (step codec slicer now event cm)
  unfolding step handle_packet_from_local handle_sequencer_tick handle_maintenance_tick
      flush_interface_log handle_keepalive
  step-Passes now (new_raw_udp_packet (some raw)) cm p s = handle_udp_packet-Passes now raw cm p s
  step-Passes now (new_raw_udp_packet none) cm p s = tt
  step-Passes now (new_packet_from_local (some bytes)) cm p s =
      follow-Passes P codec bytes (path_of slicer bytes cm.traffic_director) cm s
  step-Passes now (new_packet_from_local none) cm p s = tt
  step-Passes now global_sequencer_tick cm p s = expire_peers-Passes P now _ cm s
  step-Passes now maintenance_tick cm p s =
      >>=-Yields (Holds P) (Passes P) (PeerList.prune_stale_peers now cm.peer_list) _
        (prune_stale_peers-Holds P now cm.peer_list s.queued)
        (λ pruned h.
          flush-Passes P cm.interface_logger (record cm { peer_list = pruned })
            (record { queued = h; written = s.written }))
  step-Passes now keepalive_tick cm p s = serialize-Passes P codec _ _ cm s

  carried-All :
      (message : Option Messages) (pkts : List Packet)
      → All P (carried message pkts)
      → All P (carried message []) × All P pkts
  carried-All none pkts h = (tt, h)
  carried-All (some (packet pkt)) pkts h = ((h.0, tt), h.1)
  carried-All (some (keepalive k)) pkts h = (tt, h)

  received_packets-All :
      (now : ℕ) (event : Event) (events : List (ℕ × Event))
      → All P (received_packets codec ((now, event) ∷ events))
      → All P (received_packets codec ((now, event) ∷ [])) × All P (received_packets codec events)
  received_packets-All now (new_raw_udp_packet (some raw)) events h =
      carried-All (codec.deserialize raw.bytes) (received_packets codec events) h
  received_packets-All now (new_raw_udp_packet none) events h = (tt, h)
  received_packets-All now (new_packet_from_local message) events h = (tt, h)
  received_packets-All now global_sequencer_tick events h = (tt, h)
  received_packets-All now maintenance_tick events h = (tt, h)
  received_packets-All now keepalive_tick events h = (tt, h)

  run-Passes :
      (events : List (ℕ × Event)) (cm : ConnectionManager)
      → All P (received_packets codec events)
      → Passes P cm
      → Yields (Passes P) (run codec slicer events cm)
  unfolding run
  run-Passes [] cm p s = s
  run-Passes ((now, event) ∷ events) cm p s =
      let (here, later) = received_packets-All now event events p in
      >>=-Yields (Passes P) (Passes P) (step codec slicer now event cm) (run codec slicer events)
        (step-Passes now event cm here s) (λ after. run-Passes events after later)

-- Nothing is made up: whatever holds of all packets in the datagrams that a manager has received since
-- its start holds of a packet behind each byte string that it has written to the local interface,
-- whatever else happens in between. The run ends without a panic, under the conditions on the
-- settings, the channels, the log and the clock for that.
pub run-IsPayload :
    (codec : Bincode) (slicer : SlicedPacket) (settings : SettingsFile)
    (interface_logger : Option (Sink LogEntry)) (to_remotes : Sink OutgoingUdpPacket)
    (to_local : Sink Bytes) (now : ℕ) (events : List (ℕ × Event)) (P : Packet → Type 0)
    → IsBincode codec
    → IsSettings settings
    → IsLogging interface_logger
    → IsOpen to_remotes
    → IsOpen to_local
    → to_local.taken ≡ []
    → IsSchedule now events
    → All P (received_packets codec events)
    → Returns
        (λ after. All (IsPayload P) after.packets_to_local.taken)
        (run codec slicer events (State.new settings interface_logger to_remotes to_local now))
unfolding State.new
run-IsPayload codec slicer settings interface_logger to_remotes to_local now events P law typed
      logging open_remotes open_local unwritten schedule received =
    let cm = State.new settings interface_logger to_remotes to_local now in
    let start : Passes P cm = record {
      queued = new-Holds P (some settings.peers) now;
      written = rw unwritten tt;
    } in
    Returns-mono (Passes P) _ (run codec slicer events cm)
      (Yields-Returns (Passes P) (λ after. (t : ℕ) × IsSafe t after) (run codec slicer events cm)
        (run-Passes P codec slicer events cm received start)
        (run-Returns codec slicer law settings interface_logger to_remotes to_local now events typed
          logging open_remotes open_local schedule))
      (λ after s. s.written)
