-- ===== src/ConnectionManager/Broadcast.antt =====
-- What src/connection_manager.rs does with a packet of the local interface that goes to every peer.
use mpconn.Base.{
  ℕ, ◌≡◌, refl, sym, ap, ◌∙◌, ◌≢◌, All, All-mono, some, List, [], ◌∷◌, ◌++◌, arith, ℕ_discrete,
  done, ◌>>=◌,
}
use mpconn.Base.HashMap.{get-update}
use mpconn.Base.HashMap.Keys.{Avoids, NoRepeats, keys-NoRepeats}
use mpconn.Bincode.{Bincode, IsBincode, IsBytes}
use mpconn.Messages.{Bytes, packet, OutgoingUdpPacket}
use mpconn.PeerList
use mpconn.PeerList.{PeerList, Peer, increment_tx_counter}
use mpconn.PeerList.Counters.{
  IsKnown, get_peer_tx_counter_known, get_peer_ids-IsKnown, increment_peer_tx_counter-IsKnown,
}
use mpconn.PeerList.Validity
use mpconn.Sink.{extended-extended, extended-nil}
use mpconn.TrafficDirector.{SlicedPacket, broadcast}
use mpconn.ConnectionManager.State.{ConnectionManager}
use mpconn.ConnectionManager.Outgoing.{send_to_peers, follow, path_of, handle_packet_from_local}
use mpconn.ConnectionManager.Sends.{
  CanSend, send_to_peer-after_send, get_peer_connections-increment, sent, after_send, copies,
  Carries,
}

-- The list after one more packet went to each of some peers.
abbrev pub increment_all : List ℕ → PeerList → PeerList
increment_all [] list = list
increment_all (id ∷ ids) list = increment_all ids (PeerList.increment_peer_tx_counter id list)

get_peer_tx_counter-increment_other :
    (i j : ℕ) (list : PeerList)
    → i ≢ j
    → PeerList.get_peer_tx_counter j (PeerList.increment_peer_tx_counter i list)
      ≡ PeerList.get_peer_tx_counter j list
unfolding PeerList.get_peer_tx_counter PeerList.increment_peer_tx_counter increment_tx_counter
get_peer_tx_counter-increment_other i j list h =
    ground (arith, get-update ℕ_discrete i j increment_tx_counter list.peers)

-- The datagrams of a broadcast: for each peer in turn one copy for each of its connections, which
-- carry the packet numbered by the peer's own counter.
abbrev pub IsBroadcast : Bincode → Bytes → ℕ → PeerList → List ℕ → List OutgoingUdpPacket → Type 0
IsBroadcast codec bytes own_id list [] out = out ≡ []
IsBroadcast codec bytes own_id list (id ∷ ids) out =
    (counter : ℕ) × (serialized : Bytes) × (rest : List OutgoingUdpPacket)
    × (PeerList.get_peer_tx_counter id list ≡ done counter)
    × Carries codec serialized (packet (record { seq = counter; peer_id = own_id; bytes = bytes }))
    × (out ≡ copies (PeerList.get_peer_connections id list) serialized ++ rest)
    × IsBroadcast codec bytes own_id list ids rest

-- The state after a broadcast.
abbrev pub after_broadcast : List ℕ → List OutgoingUdpPacket → ConnectionManager → ConnectionManager
after_broadcast ids out cm = sent out (record cm { peer_list = increment_all ids cm.peer_list })

module _ (codec : Bincode) (law : IsBincode codec) (now : ℕ) (bytes : Bytes)
    (range : IsBytes bytes) where
  IsBroadcast-increment :
      (own_id i : ℕ) (list : PeerList) (ids : List ℕ) (out : List OutgoingUdpPacket)
      → Avoids i ids
      → IsBroadcast codec bytes own_id (PeerList.increment_peer_tx_counter i list) ids out
      → IsBroadcast codec bytes own_id list ids out
  IsBroadcast-increment own_id i list [] out a b = b
  IsBroadcast-increment own_id i list (id ∷ ids) out a
        (counter, serialized, rest, read, carries, eq, b) =
      (
        counter,
        serialized,
        rest,
        sym (get_peer_tx_counter-increment_other i id list a.0) ∙ read,
        carries,
        eq
            ∙ ap (λ sockets. copies sockets serialized ++ rest)
                (get_peer_connections-increment i id list),
        IsBroadcast-increment own_id i list ids rest a.1 b,
      )

  send_to_peers-IsBroadcast :
      (ids : List ℕ) (cm : ConnectionManager)
      → NoRepeats ids
      → All (λ j. IsKnown j cm.peer_list) ids
      → CanSend now cm
      → (out : List OutgoingUdpPacket) × IsBroadcast codec bytes cm.own_peer_id cm.peer_list ids out
        × (send_to_peers codec bytes ids cm ≡ done (after_broadcast ids out cm))
  unfolding send_to_peers
  send_to_peers-IsBroadcast [] cm d known can = (
    [],
    refl,
    ap (λ sink. done (record cm { udp_output_broadcast_to_remotes = sink }))
        (sym (extended-nil cm.udp_output_broadcast_to_remotes)),
  )
  send_to_peers-IsBroadcast (id ∷ ids) cm d known can =
      let (counter, read) = get_peer_tx_counter_known id cm.peer_list known.0 in
      let (serialized, carries, eq) =
        send_to_peer-after_send codec law now bytes id counter cm can range read in
      let can' : CanSend now (after_send serialized id cm) = record {
        remotes = can.remotes;
        list = Validity.increment_peer_tx_counter-IsValid id now cm.peer_list can.list;
        own_id = can.own_id;
      } in
      let known' =
        All-mono _ _ ids (λ j. increment_peer_tx_counter-IsKnown id j cm.peer_list) known.1 in
      let (rest, more, eq') =
        send_to_peers-IsBroadcast ids (after_send serialized id cm) d.1 known' can' in
      let first = copies (PeerList.get_peer_connections id cm.peer_list) serialized in
      (
        first ++ rest,
        (
          counter,
          serialized,
          rest,
          read,
          carries,
          refl,
          IsBroadcast-increment cm.own_peer_id id cm.peer_list ids rest d.0 more,
        ),
        ap (λ r. r >>= send_to_peers codec bytes ids) eq
            ∙ eq'
            ∙ ap
                (λ sink. done (record cm {
                  peer_list = increment_all (id ∷ ids) cm.peer_list;
                  udp_output_broadcast_to_remotes = sink;
                }))
                (extended-extended first rest cm.udp_output_broadcast_to_remotes),
      )

  -- A packet of the local interface that the director sends to all goes to each known peer, as in
  -- `IsBroadcast`; each peer's counter goes up by one and nothing else changes.
  pub handle_packet_from_local-IsBroadcast :
      (slicer : SlicedPacket) (cm : ConnectionManager)
      → CanSend now cm
      → path_of slicer bytes cm.traffic_director ≡ some broadcast
      → (out : List OutgoingUdpPacket) × IsBroadcast codec bytes cm.own_peer_id cm.peer_list
          (PeerList.get_peer_ids cm.peer_list)
          out
        × (handle_packet_from_local codec slicer bytes cm
            ≡ done (after_broadcast (PeerList.get_peer_ids cm.peer_list) out cm))
  unfolding handle_packet_from_local follow PeerList.get_peer_ids
  handle_packet_from_local-IsBroadcast slicer cm can path =
      let (out, is, eq) =
        send_to_peers-IsBroadcast (PeerList.get_peer_ids cm.peer_list) cm
          (keys-NoRepeats ℕ_discrete cm.peer_list.peers can.list.distinct)
          (get_peer_ids-IsKnown cm.peer_list) can in
      (out, is, ap (λ p. follow codec bytes p cm) path ∙ eq)

get_peer_tx_counter-increment_all_other :
    (j : ℕ) (ids : List ℕ) (list : PeerList)
    → Avoids j ids
    → PeerList.get_peer_tx_counter j (increment_all ids list) ≡ PeerList.get_peer_tx_counter j list
get_peer_tx_counter-increment_all_other j [] list a = refl
get_peer_tx_counter-increment_all_other j (id ∷ ids) list a =
    get_peer_tx_counter-increment_all_other j ids (PeerList.increment_peer_tx_counter id list) a.1
    ∙ get_peer_tx_counter-increment_other id j list (λ e. a.0 (sym e))
