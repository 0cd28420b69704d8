-- ===== src/ConnectionManager/Safety/Outgoing.antt =====
-- Packets of the local interface, in src/connection_manager.rs, and the invariant.
use mpconn.PeerList.{PeerList}
use mpconn.ConnectionManager.State.{ConnectionManager}
use mpconn.ConnectionManager.Sends.{CanSend, send_to_peer-after_send}
use mpconn.ConnectionManager.Safety.{IsSafe, IsRouted, sent-IsSafe, increment-IsSafe}
use mpconn.Bincode.{Bincode, IsBincode, IsBytes}
use mpconn.Messages.{Bytes}
use mpconn.Base.{
  ℕ, ◌≡◌, refl, Option, none, some, List, [], ◌∷◌, All, All-mono, arith, Returns, >>=-Returns,
  Returns-mono,
}
use mpconn.PeerList.Counters.{
  IsKnown, get_peer_tx_counter_known, increment_peer_tx_counter-IsKnown, get_peer_ids-IsKnown,
}
use mpconn.TrafficDirector.{
  SlicedPacket, DirectorType, layer2, layer3, TrafficPath, broadcast, peer,
}
use mpconn.TrafficDirector.Learning.{get_path-AllEntries}
use mpconn.TrafficDirector.Routing.{get_route-AllEntries}
use mpconn.ConnectionManager.Outgoing.{
  send_to_peer, send_to_peers, follow, path_of, handle_packet_from_local,
}

-- A path leads to a known peer.
abbrev IsPathKnown : PeerList → Option TrafficPath → Type 0
IsPathKnown list none = Unit
IsPathKnown list (some broadcast) = Unit
IsPathKnown list (some (peer peer_id)) = IsKnown peer_id list

known_path :
    (list : PeerList) (path : Option TrafficPath)
    → ((peer_id : ℕ) → path ≡ some (peer peer_id) → IsKnown peer_id list)
    → IsPathKnown list path
known_path list none h = tt
known_path list (some broadcast) h = tt
known_path list (some (peer peer_id)) h = h peer_id refl

path_of-IsPathKnown :
    (slicer : SlicedPacket) (bytes : Bytes) (list : PeerList) (td : DirectorType)
    → IsRouted list td
    → IsPathKnown list (path_of slicer bytes td)
unfolding path_of
path_of-IsPathKnown slicer bytes list (layer2 td) r =
    known_path list _ λ peer_id.
      get_path-AllEntries slicer _ (λ id. IsKnown id list) bytes td peer_id (λ _ _ k. k) r
path_of-IsPathKnown slicer bytes list (layer3 td) r = known_path list _ λ peer_id e.
    get_route-AllEntries slicer _ (λ id. IsKnown id list) bytes td peer_id (λ _ _ k. k) r
      (ground (arith, e))

module _ (codec : Bincode) (law : IsBincode codec) (now : ℕ) (bytes : Bytes)
    (range : IsBytes bytes) where
  send_to_peer-IsSafe :
      (peer_id : ℕ) (cm : ConnectionManager)
      → IsKnown peer_id cm.peer_list
      → IsSafe now cm
      → Returns
          (λ after.
            IsSafe now after × ((j : ℕ) → IsKnown j cm.peer_list → IsKnown j after.peer_list))
          (send_to_peer codec bytes peer_id cm)
  send_to_peer-IsSafe peer_id cm known s =
      let can : CanSend now cm = record { remotes = s.remotes; list = s.list; own_id = s.own_id } in
      let (counter, read) = get_peer_tx_counter_known peer_id cm.peer_list known in
      let (serialized, carries, e) =
        send_to_peer-after_send codec law now bytes peer_id counter cm can range read in
      rw e (
        sent-IsSafe now _ _ (increment-IsSafe now peer_id cm s),
        (λ j. increment_peer_tx_counter-IsKnown peer_id j cm.peer_list),
      )

  send_to_peers-IsSafe :
      (peer_ids : List ℕ) (cm : ConnectionManager)
      → All (λ j. IsKnown j cm.peer_list) peer_ids
      → IsSafe now cm
      → Returns (IsSafe now) (send_to_peers codec bytes peer_ids cm)
  unfolding send_to_peers
  send_to_peers-IsSafe [] cm known s = s
  send_to_peers-IsSafe (peer_id ∷ peer_ids) cm known s =
      >>=-Returns _ (IsSafe now) (send_to_peer codec bytes peer_id cm)
        (send_to_peers codec bytes peer_ids) (send_to_peer-IsSafe peer_id cm known.0 s)
        (λ after r. send_to_peers-IsSafe peer_ids after (All-mono _ _ peer_ids r.1 known.1) r.0)

  follow-IsSafe :
      (path : Option TrafficPath) (cm : ConnectionManager)
      → IsPathKnown cm.peer_list path
      → IsSafe now cm
      → Returns (IsSafe now) (follow codec bytes path cm)
  unfolding follow
  follow-IsSafe none cm known s = s
  follow-IsSafe (some broadcast) cm known s =
      send_to_peers-IsSafe _ cm (get_peer_ids-IsKnown cm.peer_list) s
  follow-IsSafe (some (peer peer_id)) cm known s =
      Returns-mono _ (IsSafe now) _ (send_to_peer-IsSafe peer_id cm known s) (λ after r. r.0)

  pub handle_packet_from_local-IsSafe :
      (slicer : SlicedPacket) (cm : ConnectionManager)
      → IsSafe now cm
      → Returns (IsSafe now) (handle_packet_from_local codec slicer bytes cm)
  unfolding handle_packet_from_local
  handle_packet_from_local-IsSafe slicer cm s =
      follow-IsSafe _ cm
        (path_of-IsPathKnown slicer bytes cm.peer_list cm.traffic_director s.routed) s
