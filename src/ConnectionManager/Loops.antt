-- ===== src/ConnectionManager/Loops.antt =====
-- The loops of two managers of src/connection_manager.rs with a network between them.
use mpconn.Base.{
  ℕ, ◌<◌, ◌^◌, ◌≡◌, refl, sym, subst, ◌∙◌, All, map, length, List, [], ◌∷◌, some, done, bind_cong,
  Returns,
}
use mpconn.Bincode.{Bincode, IsBincode, IsBytes}
use mpconn.Messages.{Bytes, IncomingUnparsedPacket, OutgoingUdpPacket}
use mpconn.Net.{SocketAddr}
use mpconn.PeerList
use mpconn.Sink.{extended}
use mpconn.TrafficDirector.{SlicedPacket}
use mpconn.ConnectionManager.State.{ConnectionManager}
use mpconn.ConnectionManager.Incoming.{handle_udp_packet}
use mpconn.ConnectionManager.Outgoing.{handle_packet_from_local}
use mpconn.ConnectionManager.Datagrams.{handle_all_udp}
use mpconn.ConnectionManager.Network.{IsCarriedOver, IsFresh, handle_all_udp_in_order}
use mpconn.ConnectionManager.Numbering.{LeadTo, handle_all_from_local}
use mpconn.ConnectionManager.Run.{Event, new_raw_udp_packet, new_packet_from_local, step, run}
use mpconn.ConnectionManager.Sends.{CanSend}

-- Packets that are read from the local interface, with the times, as events of the loop.
abbrev pub readings : List (ℕ × Bytes) → List (ℕ × Event)
readings l = map (λ m. (m.0, new_packet_from_local (some m.1))) l

-- Datagrams that arrive, as events of the loop.
abbrev pub arrivals : List (ℕ × IncomingUnparsedPacket) → List (ℕ × Event)
arrivals l = map (λ a. (a.0, new_raw_udp_packet (some a.1))) l

abbrev pub payloads_of : List (ℕ × Bytes) → List Bytes
payloads_of l = map (λ m. m.1) l

module _ (codec : Bincode) (slicer : SlicedPacket) where
  run-readings :
      (l : List (ℕ × Bytes)) (cm : ConnectionManager)
      → run codec slicer (readings l) cm ≡ handle_all_from_local codec slicer (payloads_of l) cm
  unfolding run step handle_all_from_local
  run-readings [] cm = refl
  run-readings ((now, bytes) ∷ l) cm =
      bind_cong (handle_packet_from_local codec slicer bytes cm) _ _ (run-readings l)

  run-arrivals :
      (l : List (ℕ × IncomingUnparsedPacket)) (cm : ConnectionManager)
      → run codec slicer (arrivals l) cm ≡ handle_all_udp codec slicer l cm
  unfolding run step handle_all_udp
  run-arrivals [] cm = refl
  run-arrivals ((now, raw) ∷ l) cm =
      bind_cong (handle_udp_packet codec slicer now raw cm) _ _ (run-arrivals l)

-- A tunnel from the loop of one manager to that of another. Each datagram that arrives is a copy of one
-- that the sender sent, or a keepalive of any peer, or cannot be deserialized. So datagrams may be lost,
-- repeated and reordered, and damaged if the damage shows when they are decoded; damaged packets that
-- still decode, and packets of other peers, do not arrive. At least one copy of each packet arrives; bincode is
-- as documented. The sender, whose counter for its peer is 0, which knows an address of it, and which is
-- able to send, is given packets of its local interface that all lead to the peer, fewer than 2^64. The
-- receiver has a new sequencer for the sender, numbers of the Rust types, and channels and a log that
-- take what they are given, and none of its timers fires and nothing comes from its local interface in
-- between. Then the receiver handles all that arrives without a panic, and writes to its local interface
-- exactly the packets that the sender read from its own, each once and in order.
pub run_in_order :
    (codec : Bincode) (slicer at_receiver : SlicedPacket) (sent_at deadline created peer_id : ℕ)
    (read : List (ℕ × Bytes)) (socket : SocketAddr) (sockets : List SocketAddr)
    (sender after receiver : ConnectionManager) (out : List OutgoingUdpPacket)
    (l : List (ℕ × IncomingUnparsedPacket))
    → IsBincode codec
    → CanSend sent_at sender
    → All IsBytes (payloads_of read)
    → length (payloads_of read) < 2 ^ 64
    → LeadTo slicer sender.traffic_director peer_id (payloads_of read)
    → PeerList.get_peer_tx_counter peer_id sender.peer_list ≡ done 0
    → PeerList.get_peer_connections peer_id sender.peer_list ≡ socket ∷ sockets
    → run codec slicer (readings read) sender ≡ done after
    → after.udp_output_broadcast_to_remotes ≡ extended out sender.udp_output_broadcast_to_remotes
    → IsCarriedOver codec out l
    → IsFresh sender.own_peer_id deadline created receiver
    → Returns
        (λ end. end.packets_to_local ≡ extended (payloads_of read) receiver.packets_to_local)
        (run codec at_receiver (arrivals l) receiver)
run_in_order codec slicer at_receiver sent_at deadline created peer_id read socket sockets sender
      after receiver out l law can range short path unsent known ran written carried fresh =
    subst
      (Returns
        (λ end. end.packets_to_local ≡ extended (payloads_of read) receiver.packets_to_local))
      (sym (run-arrivals codec at_receiver l receiver))
      (handle_all_udp_in_order codec slicer at_receiver sent_at deadline created peer_id
        (payloads_of read) socket sockets sender after receiver out l law can range short path
        unsent known (sym (run-readings codec slicer read sender) ∙ ran) written carried fresh)
