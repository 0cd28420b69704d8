-- ===== src/ConnectionManager/Origin/Run.antt =====
-- Whose messages the loop of src/connection_manager.rs sends.
use mpconn.Base.{
  ℕ, ◌≡◌, refl, Option, Option-cases, inl, inr, some, none, List, [], ◌∷◌, Outcome, Yields,
  >>=-Yields, >>=-Yields_always, Yields-if, Yields-Returns, Returns, Returns-mono,
}
use mpconn.Bincode.{Bincode, IsBincode}
use mpconn.Messages.{Bytes, Messages, packet, keepalive, IncomingUnparsedPacket, OutgoingUdpPacket}
use mpconn.Net.{Ipv4Addr}
use mpconn.PeerList
use mpconn.Sequencer
use mpconn.Sequencer.{Sequencer}
use mpconn.Settings.{SettingsFile}
use mpconn.Sink.{Sink, IsOpen}
use mpconn.TrafficDirector.{SlicedPacket}
use mpconn.ConnectionManager.State
use mpconn.ConnectionManager.State.{
  ConnectionManager, LogEntry, keepalive_message, send_copies, send_to_remotes, write_interface_log,
  flush, flush_interface_log,
}
use mpconn.ConnectionManager.Incoming.{handle_incoming_keepalive, handle_message, handle_udp_packet}
use mpconn.ConnectionManager.Outgoing.{path_of, handle_packet_from_local}
use mpconn.ConnectionManager.Timers.{
  store_expiry, drain_if_late, expire_peer, expire_peers, handle_sequencer_tick,
  handle_maintenance_tick,
}
use mpconn.ConnectionManager.Run.{
  Event, new_raw_udp_packet, new_packet_from_local, global_sequencer_tick, maintenance_tick,
  keepalive_tick, step, run,
}
use mpconn.ConnectionManager.Origin.{
  AreSigned, Signs, follow-Signs, announce-Signs, handle_keepalive-Signs,
  handle_incoming_packet-Signs, write_interface_log-Signs,
}
use mpconn.ConnectionManager.State.{tun_ip_for}
use mpconn.ConnectionManager.Safety.{IsSafe, IsLogging}
use mpconn.ConnectionManager.Safety.Run.{IsSettings, IsSchedule, run-Returns}

module _ (codec : Bincode) (slicer : SlicedPacket) (id : ℕ) (ip : Option Ipv4Addr) where
  abbrev Keeps : Outcome ConnectionManager → Type 0
  Keeps m = Yields (Signs codec id ip) m

  handle_message-Signs :
      (now : ℕ) (raw : IncomingUnparsedPacket) (message : Messages) (cm : ConnectionManager)
      → Signs codec id ip cm
      → Keeps (handle_message codec slicer now raw message cm)
  unfolding handle_message handle_incoming_keepalive
  handle_message-Signs now raw (packet pkt) cm s =
      >>=-Yields (Signs codec id ip) (Signs codec id ip)
        (write_interface_log now raw.receiver_interface pkt.seq cm) _
        (write_interface_log-Signs codec id ip now raw.receiver_interface pkt.seq cm s)
        (handle_incoming_packet-Signs codec id ip slicer now pkt)
  handle_message-Signs now raw (keepalive k) cm s =
      announce-Signs codec id ip k cm.traffic_director _
        (record { own_id = s.own_id; own_ip = s.own_ip; signed = s.signed })

  handle_udp_packet-Signs :
      (now : ℕ) (raw : IncomingUnparsedPacket) (cm : ConnectionManager)
      → Signs codec id ip cm
      → Keeps (handle_udp_packet codec slicer now raw cm)
  unfolding handle_udp_packet
  handle_udp_packet-Signs now raw cm s = elim (Option-cases (codec.deserialize raw.bytes)) [
    | inl e ↦ rw (e, handle_udp_packet) s
    | inr (message, e) ↦ rw (e, handle_udp_packet) (handle_message-Signs now raw message cm s)
  ]

  expire_peer-Signs :
      (now peer_id : ℕ) (cm : ConnectionManager)
      → Signs codec id ip cm
      → Keeps (expire_peer now peer_id cm)
  unfolding expire_peer
  expire_peer-Signs now peer_id cm s =
      elim (Option-cases (PeerList.get_peer_sequencer peer_id cm.peer_list)) [
        | inl e ↦ rw (e, expire_peer) s
        | inr (sequencer, e) ↦
            rw (e, expire_peer)
              (>>=-Yields_always (Signs codec id ip) (Sequencer.is_deadline_exceeded now sequencer)
                _
                (λ late.
                  >>=-Yields_always (Signs codec id ip)
                    (drain_if_late late now sequencer cm.packets_to_local) (store_expiry peer_id cm)
                    (λ r. record { own_id = s.own_id; own_ip = s.own_ip; signed = s.signed })))
      ]

  expire_peers-Signs :
      (now : ℕ) (peer_ids : List ℕ) (cm : ConnectionManager)
      → Signs codec id ip cm
      → Keeps (expire_peers now peer_ids cm)
  unfolding expire_peers
  expire_peers-Signs now [] cm s = s
  expire_peers-Signs now (peer_id ∷ peer_ids) cm s =
      >>=-Yields (Signs codec id ip) (Signs codec id ip) (expire_peer now peer_id cm)
        (expire_peers now peer_ids) (expire_peer-Signs now peer_id cm s)
        (expire_peers-Signs now peer_ids)

  flush-Signs :
      (log : Option (Sink LogEntry)) (cm : ConnectionManager)
      → Signs codec id ip cm
      → Keeps (flush log cm)
  unfolding flush
  flush-Signs none cm s = s
  flush-Signs (some if_log) cm s = Yields-if (Signs codec id ip) if_log.accepts _ _ s tt

  step-Signs :
      (now : ℕ) (event : Event) (cm : ConnectionManager)
      → Signs codec id ip cm
      → Keeps (step codec slicer now event cm)
  unfolding step handle_packet_from_local handle_sequencer_tick handle_maintenance_tick
      flush_interface_log
  step-Signs now (new_raw_udp_packet (some raw)) cm s = handle_udp_packet-Signs now raw cm s
  step-Signs now (new_raw_udp_packet none) cm s = tt
  step-Signs now (new_packet_from_local (some bytes)) cm s =
      follow-Signs codec id ip bytes (path_of slicer bytes cm.traffic_director) cm s
  step-Signs now (new_packet_from_local none) cm s = tt
  step-Signs now global_sequencer_tick cm s = expire_peers-Signs now _ cm s
  step-Signs now maintenance_tick cm s =
      >>=-Yields_always (Signs codec id ip) (PeerList.prune_stale_peers now cm.peer_list) _
        (λ pruned.
          flush-Signs cm.interface_logger (record cm { peer_list = pruned })
            (record { own_id = s.own_id; own_ip = s.own_ip; signed = s.signed }))
  step-Signs now keepalive_tick cm s = handle_keepalive-Signs codec id ip cm s

  run-Signs :
      (events : List (ℕ × Event)) (cm : ConnectionManager)
      → Signs codec id ip cm
      → Keeps (run codec slicer events cm)
  unfolding run
  run-Signs [] cm s = s
  run-Signs ((now, event) ∷ events) cm s =
      >>=-Yields (Signs codec id ip) (Signs codec id ip) (step codec slicer now event cm)
        (run codec slicer events) (step-Signs now event cm s) (run-Signs events)

-- Every datagram that the manager has sent since its start is a message that names it as the sender,
-- by the id of the settings, and a keepalive also by their tunnel address, whatever it received: the
-- manager never passes on a message of another. The run ends without a panic, under the conditions
-- on the settings, the channels, the log and the clock for that.
pub run-AreSigned :
    (codec : Bincode) (slicer : SlicedPacket) (settings : SettingsFile)
    (interface_logger : Option (Sink LogEntry)) (to_remotes : Sink OutgoingUdpPacket)
    (to_local : Sink Bytes) (now : ℕ) (events : List (ℕ × Event))
    → IsBincode codec
    → IsSettings settings
    → IsLogging interface_logger
    → IsOpen to_remotes
    → to_remotes.taken ≡ []
    → IsOpen to_local
    → IsSchedule now events
    → Returns
        (λ after.
          AreSigned codec settings.peer_id
            (tun_ip_for settings.local)
            after.udp_output_broadcast_to_remotes.taken)
        (run codec slicer events (State.new settings interface_logger to_remotes to_local now))
unfolding State.new
run-AreSigned codec slicer settings interface_logger to_remotes to_local now events law typed
      logging open_remotes unsent open_local schedule =
    let id = settings.peer_id in
    let ip = tun_ip_for settings.local in
    let cm = State.new settings interface_logger to_remotes to_local now in
    let start : Signs codec id ip cm = record {
      own_id = refl;
      own_ip = refl;
      signed = rw unsent tt;
    } in
    Returns-mono (Signs codec id ip) _ (run codec slicer events cm)
      (Yields-Returns (Signs codec id ip) (λ after. (t : ℕ) × IsSafe t after)
        (run codec slicer events cm) (run-Signs codec slicer id ip events cm start)
        (run-Returns codec slicer law settings interface_logger to_remotes to_local now events typed
          logging open_remotes open_local schedule))
      (λ after s. s.signed)
