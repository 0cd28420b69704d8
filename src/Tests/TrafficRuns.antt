-- ===== src/Tests/TrafficRuns.antt =====
-- Tests of src/connection_manager.rs: what it receives.
use mpconn.Base.{
  ℕ, ◌≡◌, ◌-◌, ◌+◌, ◌%◌, ◌^◌, ◌++◌, refl, some, List, [], ◌∷◌, arith, ltb, if◌then◌else◌, done,
  Returns, ◌>>=◌,
}
use mpconn.Messages.{Bytes, Packet}
use mpconn.PeerList
use mpconn.PeerList.Counters.{get_peer_sequencer-set}
use mpconn.Sequencer.{Sequencer}
use mpconn.Sequencer.Copies.{received, given}
use mpconn.Sequencer.Deliver.{consecutive}
use mpconn.Sink.{extended}
use mpconn.Sequencer.Reordering.{packets}
use mpconn.Sequencer.Stream.{first}
use mpconn.ConnectionManager.Reliability.{numbered, handle_all_in_order}
use mpconn.ConnectionManager.Streams.{IsDelivered, handle_all, handle_all-IsDelivered}
use mpconn.ConnectionManager.State
use mpconn.ConnectionManager.State.{ConnectionManager, director_for}
use mpconn.ConnectionManager.Incoming.{handle_incoming_packet, handle_udp_packet}
use mpconn.ConnectionManager.Outgoing.{handle_packet_from_local}
use mpconn.ConnectionManager.Timers.{expire_peer}
use mpconn.ConnectionManager.Receives.{
  payloads, after_delivery, handle_incoming_packet-after_delivery, handle_incoming_packet_copy,
}
use mpconn.ConnectionManager.Expiry.{after_expiry, expire_peer-after_expiry}
use mpconn.ConnectionManager.Sends.{after_send}
use mpconn.ConnectionManager.Tunnel.{
  arrival, logged, after_arrival, handle_packet_from_local_arrives,
}
use mpconn.Tests.Codec.{plain, plain-IsBincode}
use mpconn.Tests.Values.{home, away, slicer}
use mpconn.Tests.Peers.{
  sender, receiver, unused, sender-CanSend, receiver-IsReady, sender_counter, sender_path, answer,
  late, receiver_known,
}

handle_packet_from_local_arrives_example :
    (serialized : Bytes) × (handle_packet_from_local plain slicer (2 ∷ 1 ∷ []) sender
      ≡ done (after_send serialized 7 sender))
    × (handle_udp_packet plain slicer 3 (arrival "eth1" home serialized) receiver
        ≡ done (after_arrival slicer 3 "eth1" answer unused receiver))
    × (handle_udp_packet plain slicer 4
          (arrival "eth2" away serialized)
          (after_arrival slicer 3 "eth1" answer unused receiver)
        ≡ done (logged 4 "eth2" 0 (after_arrival slicer 3 "eth1" answer unused receiver)))
    × ((after_arrival slicer 3 "eth1" answer unused receiver).packets_to_local.taken
        ≡ receiver.packets_to_local.taken
          ++ (2 ∷ 1 ∷ []) ∷ payloads (consecutive ((0 + 1) % 2 ^ 64) unused.packet_queue))
unfolding State.new
handle_packet_from_local_arrives_example =
    handle_packet_from_local_arrives plain slicer slicer 0 3 4 (2 ∷ 1 ∷ []) 7 0 sender receiver
      unused "eth1" "eth2" home away plain-IsBincode sender-CanSend (omega arith) sender_path
      sender_counter receiver-IsReady (omega arith)

handle_incoming_packet-after_delivery_example :
    handle_incoming_packet slicer 3 late receiver
    ≡ done (after_delivery slicer 5 (received 3 late unused) (given late unused) receiver)
handle_incoming_packet-after_delivery_example =
    handle_incoming_packet-after_delivery slicer 3 late unused receiver receiver-IsReady.local
      receiver-IsReady.known

handle_incoming_packet_copy_example :
    (handle_incoming_packet slicer 3 late receiver >>= handle_incoming_packet slicer 4 late)
    ≡ handle_incoming_packet slicer 3 late receiver
handle_incoming_packet_copy_example =
    handle_incoming_packet_copy slicer 3 4 late late unused receiver receiver-IsReady.local
      receiver-IsReady.known (tt, tt) (omega arith) refl refl

-- The receiver after the second packet came first.
abbrev waiting : Sequencer
waiting = record unused { packet_queue = (1, late) ∷ [] }

abbrev held : ConnectionManager
held = record receiver { peer_list = PeerList.set_peer_sequencer 5 waiting receiver.peer_list }

held_sequencer : PeerList.get_peer_sequencer 5 held.peer_list ≡ some waiting
held_sequencer = get_peer_sequencer-set 5 unused waiting receiver.peer_list receiver-IsReady.known

expire_peer-after_expiry_example :
    expire_peer 4_000_000 5 held
    ≡ done (
        if ltb waiting.deadline (4_000_000 - waiting.last_update)
        then after_expiry 4_000_000 5 waiting held
        else held)
unfolding State.new
expire_peer-after_expiry_example =
    expire_peer-after_expiry 4_000_000 5 waiting held refl held_sequencer (omega arith)

-- The second packet comes first, and again over another path.
abbrev arrivals : List (ℕ × Packet)
arrivals = (2, late) ∷ (3, answer) ∷ (4, late) ∷ []

handle_all-IsDelivered_example :
    Returns (IsDelivered slicer arrivals receiver) (handle_all slicer arrivals receiver)
handle_all-IsDelivered_example =
    handle_all-IsDelivered slicer 5 3_000_000 0 arrivals receiver (omega arith)
      (refl, (refl, (refl, tt))) receiver-IsReady.local receiver_known

all_arrive :
    (i : ℕ) → first i (packets arrivals) ≡ first i (numbered 5 0 ((2 ∷ 1 ∷ []) ∷ (6 ∷ []) ∷ []))
all_arrive i = ground arith

handle_all_in_order_example :
    Returns
      (λ after.
        after.packets_to_local ≡ extended ((2 ∷ 1 ∷ []) ∷ (6 ∷ []) ∷ []) receiver.packets_to_local)
      (handle_all slicer arrivals receiver)
handle_all_in_order_example =
    handle_all_in_order slicer 5 3_000_000 0 ((2 ∷ 1 ∷ []) ∷ (6 ∷ []) ∷ []) arrivals receiver
      (omega arith) (refl, (refl, (refl, tt))) receiver-IsReady.local receiver_known all_arrive
