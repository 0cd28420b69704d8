-- ===== src/Tests/NetworkRuns.antt =====
-- A sender and a receiver with a bad network between them.
use mpconn.Base.{ℕ, ◌≡◌, refl, inl, inr, none, List, [], ◌∷◌, arith, ℕ_discrete, done, Returns}
use mpconn.Base.HashMap
use mpconn.Bincode.{serialize_unwrap}
use mpconn.ConnectionManager.Loops
use mpconn.ConnectionManager.Loops.{readings, payloads_of, run_in_order}
use mpconn.ConnectionManager.Network.{IsCarriedOver, IsFresh}
use mpconn.ConnectionManager.Run.{step, run}
use mpconn.ConnectionManager.Outgoing.{handle_packet_from_local}
use mpconn.ConnectionManager.Sends.{after_send}
use mpconn.ConnectionManager.State
use mpconn.ConnectionManager.State.{ConnectionManager, director_for, send_to_remotes}
use mpconn.Messages.{Bytes, IncomingUnparsedPacket, OutgoingUdpPacket}
use mpconn.Net.{SocketAddr-discrete, MacAddr-discrete}
use mpconn.PeerList
use mpconn.Sink.{put, extended}
use mpconn.Tests.Codec.{plain, plain-IsBincode}
use mpconn.Tests.Peers.{
  sender, receiver, sender-CanSend, sender_counter, sender_path, second_path, receiver_known,
}
use mpconn.Tests.Values.{home, away, slicer}
use mpconn.TrafficDirector.{new_layer2, learn_path, get_path, extract_ether_src, extract_ether_dst}

program : Unit {0}
unfolding plain State.new PeerList.new PeerList.insert_connections PeerList.insert_configs
    PeerList.insert_connection PeerList.new_peer PeerList.get_peer_connections
    PeerList.increment_peer_tx_counter PeerList.increment_tx_counter PeerList.get_peer_tx_counter
    run step handle_packet_from_local send_to_remotes learn_path get_path extract_ether_src
    extract_ether_dst new_layer2 serialize_unwrap put HashMap.get HashMap.insert HashMap.update
    HashMap.contains_key ℕ_discrete SocketAddr-discrete MacAddr-discrete director_for
program = tt

abbrev read : List (ℕ × Bytes)
read = (1, 2 ∷ 1 ∷ []) ∷ (2, 2 ∷ 1 ∷ 3 ∷ []) ∷ []

-- The two packets on the wire.
abbrev wire_0 : Bytes
wire_0 = 0 ∷ 0 ∷ 5 ∷ 2 ∷ 1 ∷ []

abbrev wire_1 : Bytes
wire_1 = 0 ∷ 1 ∷ 5 ∷ 2 ∷ 1 ∷ 3 ∷ []

abbrev after : ConnectionManager
after = after_send wire_1 7 (after_send wire_0 7 sender)

abbrev out : List OutgoingUdpPacket
out =
    record { destination = home; packet_bytes = wire_0 }
    ∷ record { destination = away; packet_bytes = wire_0 }
    ∷ record { destination = home; packet_bytes = wire_1 }
    ∷ record { destination = away; packet_bytes = wire_1 }
    ∷ []

abbrev heard : Bytes → IncomingUnparsedPacket
heard bytes = record { receiver_interface = "eth1"; received_from = away; bytes = bytes }

-- A keepalive of another peer.
abbrev wire_keepalive : Bytes
wire_keepalive = 1 ∷ 9 ∷ []

-- The second packet comes first, then garbage and a keepalive, and then the first, twice.
abbrev heard_by_receiver : List (ℕ × IncomingUnparsedPacket)
heard_by_receiver =
    (3, heard wire_1)
    ∷ (4, heard (9 ∷ []))
    ∷ (4, heard wire_keepalive)
    ∷ (5, heard wire_0)
    ∷ (6, heard wire_0)
    ∷ []

carried : IsCarriedOver plain out heard_by_receiver
unfolding plain
carried = (
  (
    inl (inr (inr (inl refl))),
    (
      inr (inr refl),
      (
        inr (inl (record { peer_id = 9; tun_ip = none }, refl)),
        (inl (inl refl), (inl (inl refl), tt)),
      ),
    ),
  ),
  (inr (inr (inr (inl refl))), (inr (inr (inr (inl refl))), (inl refl, (inl refl, tt)))),
)

known : PeerList.get_peer_connections 7 sender.peer_list ≡ home ∷ away ∷ []
unfolding program
known = refl

ran : run plain slicer (readings read) sender ≡ done after
unfolding program
ran = refl

written :
    after.udp_output_broadcast_to_remotes ≡ extended out sender.udp_output_broadcast_to_remotes
unfolding program
written = refl

fresh : IsFresh 5 3_000_000 0 receiver
unfolding State.new
fresh = record {
  local = refl;
  remotes = refl;
  logging = tt;
  own_id = omega arith;
  own_ip = tt;
  known = receiver_known;
}

run_in_order_example :
    Returns
      (λ end. end.packets_to_local ≡ extended (payloads_of read) receiver.packets_to_local)
      (run plain slicer (Loops.arrivals heard_by_receiver) receiver)
unfolding State.new
run_in_order_example =
    run_in_order plain slicer slicer 0 3_000_000 0 7 read home (away ∷ []) sender after receiver out
      heard_by_receiver plain-IsBincode sender-CanSend (omega arith) (omega arith)
      (sender_path, (second_path, tt)) sender_counter known ran written carried fresh
