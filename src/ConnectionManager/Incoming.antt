-- ===== src/ConnectionManager/Incoming.antt =====
-- What src/connection_manager.rs does with a datagram that a remote received.
use mpconn.Base.{ℕ, none, some, length, if◌then◌else◌, Outcome, done, ◌>>=◌, no_receiver}
use mpconn.Bincode.{Bincode, serialize_unwrap}
use mpconn.Messages.{Bytes, Packet, Keepalive, Messages, packet, keepalive, IncomingUnparsedPacket}
use mpconn.Net.{SocketAddr, v4}
use mpconn.PeerList
use mpconn.Sequencer
use mpconn.Sequencer.{Sequencer}
use mpconn.Sequencer.Deliver.{deliver}
use mpconn.Sink.{Sink, put}
use mpconn.TrafficDirector.{SlicedPacket, DirectorType, layer2, layer3, learn_path, insert_route}
use mpconn.ConnectionManager.State.{
  ConnectionManager, write_interface_log, keepalive_message, send_to_remotes,
}

-- What the loop leaves goes back to where it was borrowed.
abbrev pub store_delivery :
    ℕ → ConnectionManager → Sequencer × (DirectorType × Sink Bytes) → Outcome ConnectionManager
store_delivery peer_id cm (s, (td, to_local)) = done (record cm {
  peer_list = PeerList.set_peer_sequencer peer_id s cm.peer_list;
  traffic_director = td;
  packets_to_local = to_local;
})

module _ (slicer : SlicedPacket) where
  -- `td.learn_path` on a layer 2 director; a layer 3 director learns nothing from packets.
  unfoldable pub learn : Packet → DirectorType → DirectorType
  learn pkt (layer2 td) = layer2 (learn_path slicer pkt.peer_id pkt.bytes td)
  learn pkt (layer3 td) = layer3 td

  -- The body of the loop.
  unfoldable pub learn_and_forward :
      Packet → DirectorType × Sink Bytes → Outcome (DirectorType × Sink Bytes)
  unfolding learn
  learn_and_forward pkt (td, to_local) = do
    to_local' ← put no_receiver pkt.bytes to_local
    done (learn pkt td, to_local')

  -- A packet from an unknown peer is dropped.
  unfoldable pub handle_incoming_packet : ℕ → Packet → ConnectionManager → Outcome ConnectionManager
  unfolding learn_and_forward
  handle_incoming_packet now pkt cm = elim (PeerList.get_peer_sequencer pkt.peer_id cm.peer_list) [
    | none ↦ done cm
    | some s ↦
        let s' = Sequencer.insert_packet pkt s in
        deliver (length s'.packet_queue) now learn_and_forward s'
          (cm.traffic_director, cm.packets_to_local)
        >>= store_delivery pkt.peer_id cm
  ]

unfoldable pub handle_instant_keepalive :
    Bincode → ℕ → ConnectionManager → Outcome ConnectionManager
handle_instant_keepalive codec target_peer_id cm = do
  serialized_packet ← serialize_unwrap codec (keepalive (keepalive_message cm))
  send_to_remotes (PeerList.get_peer_connections target_peer_id cm.peer_list) serialized_packet cm

-- A new route of a layer 3 peer is answered at once.
unfoldable pub announce :
    Bincode → Keepalive → DirectorType → ConnectionManager → Outcome ConnectionManager
unfolding handle_instant_keepalive
announce codec k (layer2 td) cm = done cm
announce codec k (layer3 td) cm = elim k.tun_ip [
  | none ↦ done cm
  | some tun_ip ↦
      let (td', is_new_route) = insert_route k.peer_id (v4 tun_ip) td in
      let cm' : ConnectionManager = record cm { traffic_director = layer3 td' } in
      if is_new_route then handle_instant_keepalive codec k.peer_id cm' else done cm'
]

unfoldable pub handle_incoming_keepalive :
    Bincode → ℕ → Keepalive → SocketAddr → ConnectionManager → Outcome ConnectionManager
unfolding announce
handle_incoming_keepalive codec now k source cm =
    announce codec k cm.traffic_director
      (record cm { peer_list = PeerList.add_peer k.peer_id source now cm.peer_list })

module _ (codec : Bincode) (slicer : SlicedPacket) where
  unfoldable pub handle_message :
      ℕ → IncomingUnparsedPacket → Messages → ConnectionManager → Outcome ConnectionManager
  unfolding handle_incoming_packet handle_incoming_keepalive
  handle_message now raw (packet pkt) cm = do
    cm' ← write_interface_log now raw.receiver_interface pkt.seq cm
    handle_incoming_packet slicer now pkt cm'
  handle_message now raw (keepalive k) cm =
      handle_incoming_keepalive codec now k raw.received_from cm

  -- What cannot be deserialized is thrown away.
  unfoldable pub handle_udp_packet :
      ℕ → IncomingUnparsedPacket → ConnectionManager → Outcome ConnectionManager
  unfolding handle_message
  handle_udp_packet now raw cm = elim (codec.deserialize raw.bytes) [
    | some decoded ↦ handle_message now raw decoded cm
    | none ↦ done cm
  ]
