-- ===== src/Tests/ManagerRuns.antt =====
-- Tests of src/connection_manager.rs.
use mpconn.Base.{ℕ, All, ◌≡◌, refl, none, some, List, [], ◌∷◌, arith, done, Returns}
use mpconn.Base.{◌>>=◌, map, ℕ_discrete}
use mpconn.Base.HashMap
use mpconn.Base.BTreeMap
use mpconn.Bincode.{serialize_unwrap}
use mpconn.Net.{SocketAddr-discrete, MacAddr-discrete}
use mpconn.Sequencer
use mpconn.Sequencer.Deliver.{deliver}
use mpconn.Sink.{put}
use mpconn.TrafficDirector.{learn_path, get_path, extract_ether_src, extract_ether_dst}
use mpconn.ConnectionManager.Incoming.{handle_udp_packet}
use mpconn.ConnectionManager.Outgoing.{handle_packet_from_local}
use mpconn.ConnectionManager.Timers.{
  handle_sequencer_tick, expire_peers, expire_peer, handle_maintenance_tick, handle_keepalive,
}
use mpconn.Messages.{Bytes, IncomingUnparsedPacket}
use mpconn.PeerList
use mpconn.ConnectionManager.State
use mpconn.ConnectionManager.State.{
  ConnectionManager, send_to_remotes, write_interface_log, flush_interface_log, director_for,
}
use mpconn.ConnectionManager.Run.{
  Event, new_raw_udp_packet, new_packet_from_local, global_sequencer_tick, maintenance_tick,
  keepalive_tick, step, run,
}
use mpconn.ConnectionManager.Origin.{AreSigned}
use mpconn.ConnectionManager.Origin.Run.{run-AreSigned}
use mpconn.ConnectionManager.Sources.Handlers.{IsPayload}
use mpconn.ConnectionManager.Sources.Run.{run-IsPayload}
use mpconn.ConnectionManager.Safety.{IsSafe}
use mpconn.ConnectionManager.Safety.Run.{run-Returns}
use mpconn.Tests.Codec.{plain, plain-IsBincode}
use mpconn.Tests.Values.{home, settings, slicer, open_sink}

abbrev datagram : Bytes → IncomingUnparsedPacket
datagram bytes = record { receiver_interface = "eth1"; received_from = home; bytes = bytes }

-- A frame arrives, is answered, and garbage follows; the timers fire.
abbrev pub day : List (ℕ × Event)
day =
    (1, new_raw_udp_packet (some (datagram (0 ∷ 0 ∷ 7 ∷ 1 ∷ 2 ∷ []))))
    ∷ (2, new_packet_from_local (some (2 ∷ 1 ∷ [])))
    ∷ (3, new_raw_udp_packet (some (datagram (9 ∷ []))))
    ∷ (4, global_sequencer_tick)
    ∷ (5, maintenance_tick)
    ∷ (6, keepalive_tick)
    ∷ []

abbrev pub fresh : ConnectionManager
fresh = State.new settings none open_sink open_sink 0

run-Returns_example : Returns (λ after. (t : ℕ) × IsSafe t after) (run plain slicer day fresh)
run-Returns_example =
    run-Returns plain slicer plain-IsBincode settings none open_sink open_sink 0 day (omega arith)
      tt refl refl (omega arith)

run-AreSigned_example :
    Returns
      (λ after. AreSigned plain 5 none after.udp_output_broadcast_to_remotes.taken)
      (run plain slicer day fresh)
run-AreSigned_example =
    run-AreSigned plain slicer settings none open_sink open_sink 0 day plain-IsBincode (omega arith)
      tt refl refl refl (omega arith)

run-IsPayload_example :
    Returns
      (λ after. All (IsPayload (λ pkt. pkt.peer_id ≡ 7)) after.packets_to_local.taken)
      (run plain slicer day fresh)
unfolding plain
run-IsPayload_example =
    run-IsPayload plain slicer settings none open_sink open_sink 0 day (λ pkt. pkt.peer_id ≡ 7)
      plain-IsBincode (omega arith) tt refl refl refl (omega arith) (refl, tt)

program : Unit {0}
unfolding step run plain State.new PeerList.new PeerList.insert_connections
    PeerList.insert_connection PeerList.new_peer PeerList.get_all_connections PeerList.get_peer_ids
    PeerList.get_peer_connections PeerList.get_peer_sequencer PeerList.set_peer_sequencer
    PeerList.increment_peer_tx_counter PeerList.increment_tx_counter PeerList.get_peer_tx_counter
    PeerList.prune_stale_peers handle_udp_packet handle_packet_from_local handle_sequencer_tick
    expire_peers expire_peer handle_maintenance_tick handle_keepalive send_to_remotes
    write_interface_log flush_interface_log deliver learn_path get_path extract_ether_src
    extract_ether_dst serialize_unwrap put HashMap.get HashMap.insert HashMap.update
    HashMap.contains_key BTreeMap.or_insert Sequencer.new Sequencer.insert_packet
    Sequencer.get_next_packet Sequencer.have_next_packet Sequencer.advance_queue
    Sequencer.is_deadline_exceeded ℕ_discrete SocketAddr-discrete MacAddr-discrete director_for
program = tt

abbrev outputs : ConnectionManager → List Bytes × List Bytes
outputs cm =
    (cm.packets_to_local.taken, map (λ d. d.packet_bytes) cm.udp_output_broadcast_to_remotes.taken)

-- The frame reaches the local interface; the answer goes to both addresses of peer 7, with number 0,
-- and so does the keepalive.
day_delivers :
    (run plain slicer day fresh >>= λ cm. done (outputs cm))
    ≡ done (
      (1 ∷ 2 ∷ []) ∷ [],
      (0 ∷ 0 ∷ 5 ∷ 2 ∷ 1 ∷ []) ∷ (0 ∷ 0 ∷ 5 ∷ 2 ∷ 1 ∷ []) ∷ (1 ∷ 5 ∷ []) ∷ (1 ∷ 5 ∷ []) ∷ [],
    )
unfolding program
day_delivers = refl
