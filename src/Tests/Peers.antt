-- ===== src/Tests/Peers.antt =====
-- Two programs that exchange a packet: a sender with id 5 and a receiver with id 7.
use mpconn.Base.{◌≡◌, refl, none, some, [], ◌∷◌, arith, ℕ_discrete, done}
use mpconn.Base.HashMap
use mpconn.Messages.{Packet}
use mpconn.Net.{SocketAddr-discrete, MacAddr-discrete}
use mpconn.PeerList
use mpconn.PeerList.Validity
use mpconn.Sequencer
use mpconn.Sequencer.{Sequencer}
use mpconn.TrafficDirector.{
  layer2, peer, broadcast, learn_path, get_path, new_layer2, extract_ether_src, extract_ether_dst,
}
use mpconn.ConnectionManager.State
use mpconn.ConnectionManager.State.{ConnectionManager, director_for}
use mpconn.ConnectionManager.Outgoing.{path_of}
use mpconn.ConnectionManager.Sends.{CanSend}
use mpconn.ConnectionManager.Tunnel.{IsReady}
use mpconn.Tests.Values.{away, settings, slicer, open_sink}

program : Unit {0}
unfolding State.new PeerList.new PeerList.insert_connections PeerList.insert_configs
    PeerList.insert_connection PeerList.new_peer PeerList.get_peer_sequencer
    PeerList.get_peer_tx_counter learn_path get_path path_of extract_ether_src extract_ether_dst
    new_layer2 HashMap.get HashMap.insert HashMap.contains_key Sequencer.new
    Sequencer.have_next_packet ℕ_discrete SocketAddr-discrete MacAddr-discrete director_for
program = tt

abbrev pub sender : ConnectionManager
sender = record (State.new settings none open_sink open_sink 0) {
  traffic_director = layer2 (learn_path slicer 7 (1 ∷ 2 ∷ []) new_layer2);
}

abbrev pub receiver : ConnectionManager
receiver =
    State.new
      (record settings { peers = record { addresses = away ∷ []; id = 5 } ∷ []; peer_id = 7 }) none
      open_sink open_sink 0

abbrev pub unused : Sequencer
unused = record { packet_queue = []; next_seq = 0; deadline = 3_000_000; last_update = 0 }

pub sender-CanSend : CanSend 0 sender
unfolding State.new
sender-CanSend = record {
  remotes = refl;
  list = Validity.new-IsValid (some settings.peers) 0;
  own_id = omega arith;
}

pub receiver-IsReady : IsReady 0 5 unused receiver
unfolding program
receiver-IsReady = record {
  local = refl;
  logging = tt;
  known = refl;
  fits = (tt, tt);
  waits = refl;
  expects = refl;
}

pub sender_counter : PeerList.get_peer_tx_counter 7 sender.peer_list ≡ done 0
unfolding program
sender_counter = refl

pub sender_path : path_of slicer (2 ∷ 1 ∷ []) sender.traffic_director ≡ some (peer 7)
unfolding program
sender_path = refl

pub broadcast_path : path_of slicer (255 ∷ 1 ∷ []) sender.traffic_director ≡ some broadcast
unfolding program
broadcast_path = refl

abbrev pub answer : Packet
answer = record { seq = 0; peer_id = 5; bytes = 2 ∷ 1 ∷ [] }

-- A packet with another in its wake.
abbrev pub late : Packet
late = record { seq = 1; peer_id = 5; bytes = 6 ∷ [] }

pub receiver_known :
    PeerList.get_peer_sequencer 5 receiver.peer_list ≡ some (Sequencer.new 3_000_000 0)
unfolding program
receiver_known = refl

pub second_path : path_of slicer (2 ∷ 1 ∷ 3 ∷ []) sender.traffic_director ≡ some (peer 7)
unfolding program
second_path = refl
