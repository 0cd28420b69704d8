-- ===== src/ConnectionManager/Outgoing.antt =====
-- What src/connection_manager.rs does with a packet of the local interface.
use mpconn.Base.{ℕ, Option, none, some, List, [], ◌∷◌, Outcome, done, ◌>>=◌}
use mpconn.Bincode.{Bincode, serialize_unwrap}
use mpconn.Messages.{Bytes, packet}
use mpconn.PeerList
use mpconn.TrafficDirector.{
  SlicedPacket, DirectorType, layer2, layer3, TrafficPath, broadcast, peer, get_path, get_route,
}
use mpconn.ConnectionManager.State.{ConnectionManager, send_to_remotes}

module _ (slicer : SlicedPacket) where
  -- Where the director sends a packet; a route of layer 3 leads to one peer.
  unfoldable pub path_of : Bytes → DirectorType → Option TrafficPath
  path_of bytes (layer2 td) = get_path slicer bytes td
  path_of bytes (layer3 td) = elim (get_route slicer bytes td) [
    | some destination_peer ↦ some (peer destination_peer)
    | none ↦ none
  ]

module _ (codec : Bincode) where
  -- One peer's copies: the source writes these steps out three times.
  unfoldable pub send_to_peer : Bytes → ℕ → ConnectionManager → Outcome ConnectionManager
  send_to_peer bytes peer_id cm = do
    tx_counter ← PeerList.get_peer_tx_counter peer_id cm.peer_list
    serialized_packet ←
        serialize_unwrap codec
          (packet (record { seq = tx_counter; peer_id = cm.own_peer_id; bytes = bytes }))
    let list = PeerList.increment_peer_tx_counter peer_id cm.peer_list
    send_to_remotes (PeerList.get_peer_connections peer_id list) serialized_packet
        (record cm { peer_list = list })

  -- `for peer_id in self.peer_list.get_peer_ids()`
  unfoldable pub send_to_peers : Bytes → List ℕ → ConnectionManager → Outcome ConnectionManager
  send_to_peers bytes [] cm = done cm
  send_to_peers bytes (peer_id ∷ peer_ids) cm =
      send_to_peer bytes peer_id cm >>= send_to_peers bytes peer_ids

  unfoldable pub follow : Bytes → Option TrafficPath → ConnectionManager → Outcome ConnectionManager
  unfolding send_to_peer send_to_peers
  follow bytes none cm = done cm
  follow bytes (some broadcast) cm = send_to_peers bytes (PeerList.get_peer_ids cm.peer_list) cm
  follow bytes (some (peer peer_id)) cm = send_to_peer bytes peer_id cm

  unfoldable pub handle_packet_from_local :
      SlicedPacket → Bytes → ConnectionManager → Outcome ConnectionManager
  unfolding follow path_of
  handle_packet_from_local slicer bytes cm =
      follow bytes (path_of slicer bytes cm.traffic_director) cm
