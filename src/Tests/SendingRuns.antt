-- ===== src/Tests/SendingRuns.antt =====
-- Tests of src/connection_manager.rs: what it sends.
use mpconn.Base.{
  ◌≡◌, refl, none, some, Returns, ℕ_discrete, List, [], ◌∷◌, arith, if◌then◌else◌, done,
}
use mpconn.Messages.{Keepalive, Bytes, OutgoingUdpPacket, keepalive, packet}
use mpconn.PeerList
use mpconn.TrafficDirector.{layer3, new_layer3}
use mpconn.ConnectionManager.Numbering.{
  HaveGone, handle_all_from_local, handle_all_from_local-HaveGone,
}
use mpconn.ConnectionManager.Announcements.{
  announced, after_keepalive, answered, handle_incoming_keepalive-after_keepalive,
}
use mpconn.ConnectionManager.State
use mpconn.ConnectionManager.State.{ConnectionManager, director_for}
use mpconn.ConnectionManager.Incoming.{handle_incoming_keepalive}
use mpconn.ConnectionManager.Outgoing.{send_to_peer, handle_packet_from_local}
use mpconn.ConnectionManager.Timers.{handle_keepalive}
use mpconn.ConnectionManager.Broadcast.{
  IsBroadcast, after_broadcast, handle_packet_from_local-IsBroadcast,
}
use mpconn.ConnectionManager.Sends.{
  CanSend, IsRound, Carries, after_send, send_to_peer-after_send, handle_keepalive-sent,
}
use mpconn.Tests.Codec.{plain, plain-IsBincode}
use mpconn.Base.HashMap
use mpconn.Net.{SocketAddr-discrete}
use mpconn.PeerList.Validity
use mpconn.Settings.{SettingsFile}
use mpconn.Tests.Values.{home, away, settings, open_sink, slicer}
use mpconn.Tests.Peers.{
  sender, sender-CanSend, sender_counter, sender_path, broadcast_path, second_path,
}

handle_packet_from_local-IsBroadcast_example :
    (out : List OutgoingUdpPacket) × IsBroadcast plain
      (255 ∷ 1 ∷ [])
      5
      sender.peer_list
      (PeerList.get_peer_ids sender.peer_list)
      out
    × (handle_packet_from_local plain slicer (255 ∷ 1 ∷ []) sender
        ≡ done (after_broadcast (PeerList.get_peer_ids sender.peer_list) out sender))
unfolding State.new
handle_packet_from_local-IsBroadcast_example =
    handle_packet_from_local-IsBroadcast plain plain-IsBincode 0 (255 ∷ 1 ∷ []) (omega arith) slicer
      sender sender-CanSend broadcast_path

send_to_peer-after_send_example :
    (serialized : Bytes) × Carries plain serialized
      (packet (record { seq = 0; peer_id = sender.own_peer_id; bytes = 8 ∷ [] }))
    × (send_to_peer plain (8 ∷ []) 7 sender ≡ done (after_send serialized 7 sender))
send_to_peer-after_send_example =
    send_to_peer-after_send plain plain-IsBincode 0 (8 ∷ []) 7 0 sender sender-CanSend (omega arith)
      sender_counter

-- Two peers, one with two addresses.
abbrev two_peers : SettingsFile
two_peers = record settings {
  peers =
      record { addresses = home ∷ away ∷ []; id = 7 }
      ∷ record { addresses = away ∷ []; id = 8 }
      ∷ [];
}

abbrev host : ConnectionManager
host = State.new two_peers none open_sink open_sink 0

host-CanSend : CanSend 0 host
unfolding State.new
host-CanSend = record {
  remotes = refl;
  list = Validity.new-IsValid (some two_peers.peers) 0;
  own_id = omega arith;
}

handle_keepalive-sent_example :
    (serialized : Bytes) × Carries plain serialized
      (keepalive (record { peer_id = host.own_peer_id; tun_ip = host.own_tun_ip }))
    × Returns (IsRound serialized host) (handle_keepalive plain host)
unfolding State.new
handle_keepalive-sent_example = handle_keepalive-sent plain 0 host plain-IsBincode host-CanSend tt

host_connections : PeerList.get_all_connections host.peer_list ≡ home ∷ away ∷ away ∷ []
unfolding State.new PeerList.new PeerList.insert_connections PeerList.insert_configs
    PeerList.insert_connection PeerList.new_peer PeerList.get_all_connections HashMap.insert
    ℕ_discrete SocketAddr-discrete PeerList.connections_of
host_connections = refl

-- A layer 3 program that hears of a new route.
abbrev routing : ConnectionManager
routing = record sender { traffic_director = layer3 new_layer3 }

abbrev hello : Keepalive
hello = record { peer_id = 7; tun_ip = some 9 }

handle_incoming_keepalive-after_keepalive_example :
    (serialized : Bytes) × Carries plain serialized
      (keepalive (record { peer_id = routing.own_peer_id; tun_ip = routing.own_tun_ip }))
    × (handle_incoming_keepalive plain 2 hello home routing
        ≡ done (
            if (announced 7 (some 9) routing.traffic_director).1
            then answered serialized 7 (after_keepalive 2 hello home routing)
            else after_keepalive 2 hello home routing))
unfolding State.new
handle_incoming_keepalive-after_keepalive_example =
    handle_incoming_keepalive-after_keepalive plain 2 hello home routing plain-IsBincode refl
      (omega arith) tt

handle_all_from_local-HaveGone_example :
    (after : ConnectionManager) × (handle_all_from_local plain slicer
        ((2 ∷ 1 ∷ []) ∷ (2 ∷ 1 ∷ 3 ∷ []) ∷ [])
        sender
      ≡ done after)
    × HaveGone plain slicer 7 0 ((2 ∷ 1 ∷ []) ∷ (2 ∷ 1 ∷ 3 ∷ []) ∷ []) sender after
handle_all_from_local-HaveGone_example =
    handle_all_from_local-HaveGone plain slicer plain-IsBincode 0 7
      ((2 ∷ 1 ∷ []) ∷ (2 ∷ 1 ∷ 3 ∷ []) ∷ []) 0 sender sender-CanSend (omega arith)
      (sender_path, (second_path, tt)) sender_counter
