-- ===== src/ConnectionManager/Tunnel.antt =====
-- A packet on its way from one ConnectionManager of src/connection_manager.rs to another.
use Prim.Native.String.{String}
use mpconn.Base.{
  ℕ, ◌+◌, ◌<◌, ◌%◌, ◌^◌, ◌≡◌, refl, ap, ◌∙◌, false, Option, none, some, [], ◌∷◌, ◌++◌, done, ◌>>=◌,
  io_failure,
}
use mpconn.Bincode.{Bincode, IsBincode, IsBytes}
use mpconn.Messages.{Bytes, Packet, packet, IncomingUnparsedPacket}
use mpconn.Net.{SocketAddr}
use mpconn.PeerList
use mpconn.PeerList.Counters.{get_peer_sequencer-set}
use mpconn.Sequencer.{Sequencer, have_next_packet}
use mpconn.Sequencer.Deliver.{consecutive}
use mpconn.Sequencer.Order.{Fits}
use mpconn.Sequencer.Copies.{received, given, given-next, received_again}
use mpconn.Sink.{Sink, IsOpen, extended, put-extended}
use mpconn.TrafficDirector.{SlicedPacket, peer}
use mpconn.ConnectionManager.State.{ConnectionManager, LogEntry, write_interface_log}
use mpconn.ConnectionManager.Incoming.{handle_incoming_packet, handle_message, handle_udp_packet}
use mpconn.ConnectionManager.Outgoing.{follow, path_of, handle_packet_from_local}
use mpconn.ConnectionManager.Receives.{
  payloads, after_delivery, handle_incoming_packet-after_delivery, handle_incoming_packet_idle,
}
use mpconn.ConnectionManager.Safety.{IsLogging}
use mpconn.ConnectionManager.Sends.{CanSend, Carries, after_send, send_to_peer-after_send}

-- The datagram with some bytes, as a network interface receives it.
abbrev pub arrival : String → SocketAddr → Bytes → IncomingUnparsedPacket
arrival receiver_interface received_from bytes = record {
  receiver_interface = receiver_interface;
  received_from = received_from;
  bytes = bytes;
}

abbrev pub extended_log : LogEntry → Option (Sink LogEntry) → Option (Sink LogEntry)
extended_log entry none = none
extended_log entry (some if_log) = some (extended (entry ∷ []) if_log)

-- The state after a packet's arrival was logged, if there is a log.
abbrev pub logged : ℕ → String → ℕ → ConnectionManager → ConnectionManager
logged now receiver_interface seq cm = record cm {
  interface_logger =
      extended_log
        (record {
          time_stamp = now;
          sequence_number = seq;
          receiver_interface = receiver_interface;
        })
        cm.interface_logger;
}

log_entry :
    (log : Option (Sink LogEntry)) (now : ℕ) (receiver_interface : String) (seq : ℕ)
    (cm : ConnectionManager)
    → IsLogging log
    → write_interface_log now receiver_interface seq (record cm { interface_logger = log })
      ≡ done (logged now receiver_interface seq (record cm { interface_logger = log }))
unfolding write_interface_log
log_entry none now receiver_interface seq cm h = refl
log_entry (some if_log) now receiver_interface seq cm h =
    rw (put-extended io_failure _ if_log h) refl

write_interface_log-logged :
    (now : ℕ) (receiver_interface : String) (seq : ℕ) (cm : ConnectionManager)
    → IsLogging cm.interface_logger
    → write_interface_log now receiver_interface seq cm
      ≡ done (logged now receiver_interface seq cm)
write_interface_log-logged now receiver_interface seq cm h =
    log_entry cm.interface_logger now receiver_interface seq cm h

module _ (codec : Bincode) (slicer : SlicedPacket) where
  -- A datagram that carries a packet is logged and handled as that packet.
  pub handle_udp_packet-carried :
      (now : ℕ) (raw : IncomingUnparsedPacket) (pkt : Packet) (cm : ConnectionManager)
      → IsLogging cm.interface_logger
      → Carries codec raw.bytes (packet pkt)
      → handle_udp_packet codec slicer now raw cm
        ≡ handle_incoming_packet slicer now pkt (logged now raw.receiver_interface pkt.seq cm)
  unfolding handle_udp_packet handle_message
  handle_udp_packet-carried now raw pkt cm h carries =
      rw (carries, handle_udp_packet)
        (ap (λ r. r >>= handle_incoming_packet slicer now pkt)
          (write_interface_log-logged now raw.receiver_interface pkt.seq cm h))

-- A receiver that knows the peer, and whose sequencer `s` for it waits for the number `seq`.
pub record IsReady (seq peer_id : ℕ) (s : Sequencer) (cm : ConnectionManager) : Type 0 where
  pub local : IsOpen cm.packets_to_local
  pub logging : IsLogging cm.interface_logger
  pub known : PeerList.get_peer_sequencer peer_id cm.peer_list ≡ some s
  pub fits : Fits s.next_seq s.packet_queue
  pub waits : have_next_packet s ≡ false
  pub expects : seq ≡ s.next_seq

pub IsLogging-extended :
    (entry : LogEntry) (log : Option (Sink LogEntry))
    → IsLogging log
    → IsLogging (extended_log entry log)
IsLogging-extended entry none h = h
IsLogging-extended entry (some if_log) h = h

-- The receiver after the packet arrived.
abbrev pub after_arrival :
    SlicedPacket → ℕ → String → Packet → Sequencer → ConnectionManager → ConnectionManager
after_arrival slicer now receiver_interface pkt s cm =
    after_delivery slicer pkt.peer_id (received now pkt s) (given pkt s)
      (logged now receiver_interface pkt.seq cm)

module _ (codec : Bincode) (slicer : SlicedPacket) (now later : ℕ) (a b : IncomingUnparsedPacket)
    (pkt : Packet) (s : Sequencer) (cm : ConnectionManager)
    (ready : IsReady pkt.seq pkt.peer_id s cm) (early : pkt.seq + 1 < 2 ^ 64) where
  first_arrival :
      Carries codec a.bytes (packet pkt)
      → handle_udp_packet codec slicer now a cm
        ≡ done (after_arrival slicer now a.receiver_interface pkt s cm)
  first_arrival carries =
      handle_udp_packet-carried codec slicer now a pkt cm ready.logging carries
      ∙ handle_incoming_packet-after_delivery slicer now pkt s _ ready.local ready.known

  second_arrival :
      Carries codec b.bytes (packet pkt)
      → handle_udp_packet codec slicer later b
          (after_arrival slicer now a.receiver_interface pkt s cm)
        ≡ done (
            logged later b.receiver_interface pkt.seq
              (after_arrival slicer now a.receiver_interface pkt s cm))
  second_arrival carries =
      let (nothing, same) = received_again now later pkt pkt s ready.fits early refl in
      handle_udp_packet-carried codec slicer later b pkt
        (after_arrival slicer now a.receiver_interface pkt s cm)
        (IsLogging-extended _ cm.interface_logger ready.logging) carries
      ∙ handle_incoming_packet_idle slicer later pkt (received now pkt s) _ ready.local
          (get_peer_sequencer-set pkt.peer_id s (received now pkt s) cm.peer_list ready.known)
          nothing same

-- A packet that the director of the sender sends to one peer arrives whole. The sender sends the same
-- bytes over each connection of the peer. When they first arrive at a receiver that waits for their
-- number, the packet is written to its local interface, before what waited behind it. When they arrive
-- again, over another connection, only the interface log changes.
pub handle_packet_from_local_arrives :
    (codec : Bincode) (slicer at_receiver : SlicedPacket) (sent_at now later : ℕ) (bytes : Bytes)
    (peer_id counter : ℕ) (sender receiver : ConnectionManager) (s : Sequencer)
    (interface_a interface_b : String) (from_a from_b : SocketAddr)
    → IsBincode codec
    → CanSend sent_at sender
    → IsBytes bytes
    → path_of slicer bytes sender.traffic_director ≡ some (peer peer_id)
    → PeerList.get_peer_tx_counter peer_id sender.peer_list ≡ done counter
    → IsReady counter sender.own_peer_id s receiver
    → counter + 1 < 2 ^ 64
    → let pkt : Packet = record { seq = counter; peer_id = sender.own_peer_id; bytes = bytes } in
      let arrived = after_arrival at_receiver now interface_a pkt s receiver in
      (serialized : Bytes) × (handle_packet_from_local codec slicer bytes sender
        ≡ done (after_send serialized peer_id sender))
      × (handle_udp_packet codec at_receiver now (arrival interface_a from_a serialized) receiver
          ≡ done arrived)
      × (handle_udp_packet codec at_receiver later (arrival interface_b from_b serialized) arrived
          ≡ done (logged later interface_b counter arrived))
      × (arrived.packets_to_local.taken
          ≡ receiver.packets_to_local.taken
            ++ bytes ∷ payloads (consecutive ((counter + 1) % 2 ^ 64) s.packet_queue))
unfolding handle_packet_from_local follow
handle_packet_from_local_arrives codec slicer at_receiver sent_at now later bytes peer_id counter
      sender receiver s interface_a interface_b from_a from_b law can range path read ready early =
    let pkt : Packet = record { seq = counter; peer_id = sender.own_peer_id; bytes = bytes } in
    let (serialized, carries, eq) =
      send_to_peer-after_send codec law sent_at bytes peer_id counter sender can range read in
    let a = arrival interface_a from_a serialized in
    let b = arrival interface_b from_b serialized in
    (
      serialized,
      ap (λ p. follow codec bytes p sender) path ∙ eq,
      first_arrival codec at_receiver now later a b pkt s receiver ready early carries,
      second_arrival codec at_receiver now later a b pkt s receiver ready early carries,
      ap (λ pkts. receiver.packets_to_local.taken ++ payloads pkts)
          (given-next pkt s ready.fits.0 ready.waits ready.expects),
    )
