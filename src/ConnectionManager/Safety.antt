-- ===== src/ConnectionManager/Safety.antt =====
-- The invariant of src/connection_manager.rs under which its `unwrap`s are looked at; the children are
-- about the handlers.
pub mod Outgoing
pub mod Incoming
pub mod Timers
pub mod Run
use mpconn.Base.{
  ℕ, ◌≤◌, ◌<◌, ◌^◌, ◌≡◌, refl, subst, Option-cases, Bool-cases, inl, inr, Bool, true, false, Option,
  none, some, List, [], ◌∷◌, All, arith, ℕ_discrete, length, Outcome, done, ◌>>=◌, Returns,
  >>=-Returns, Returns-mono, no_receiver, io_failure,
}
use mpconn.Base.HashMap
use mpconn.Base.HashMap.{AllEntries, AllEntries-mono, get-AllEntries}
use mpconn.Base.BTreeMap
use mpconn.Bincode.{
  Bincode, IsBincode, IsBytes, IsTunIp, IsMessage, serialize_unwrap, serialize_unwrap_total,
}
use mpconn.Messages.{
  Bytes, Packet, Keepalive, Messages, packet, keepalive, IncomingUnparsedPacket, OutgoingUdpPacket,
}
use mpconn.Net.{SocketAddr, v4, IpAddr, MacAddr}
use mpconn.PeerList
use mpconn.PeerList.{PeerList}
use mpconn.PeerList.Counters.{
  IsKnown, get_peer_tx_counter_known, add_peer-IsKnown, add_peer-IsKnown_self, update-IsKnown,
}
use mpconn.PeerList.Pruning.{prune_stale_peers-IsValid}
use mpconn.PeerList.Validity
use mpconn.PeerList.Validity.{IsPeer, IsPeerSequencer, IsOwned}
use mpconn.Sequencer
use mpconn.Sequencer.{Sequencer}
use mpconn.Sequencer.Deliver.{deliver}
use mpconn.Sink.{Sink, IsOpen, put, extended, put-extended}
use mpconn.TrafficDirector.{
  SlicedPacket, DirectorType, layer2, layer3, TrafficPath, broadcast, peer,
}
use mpconn.TrafficDirector.Learning.{get_path-AllEntries, learn_path-AllEntries}
use mpconn.TrafficDirector.Routing.{get_route-AllEntries, insert_route-AllEntries}
use mpconn.ConnectionManager.State.{
  ConnectionManager, LogEntry, send_to_remotes, keepalive_message, write_interface_log,
  flush_interface_log,
}
use mpconn.ConnectionManager.Outgoing.{
  send_to_peer, send_to_peers, follow, path_of, handle_packet_from_local,
}
use mpconn.ConnectionManager.Sends.{
  CanSend, send_to_remotes-sent, send_to_peer-after_send, sent, copies,
}

-- Every entry of the director's table leads to a known peer.
abbrev pub IsRouted : PeerList → DirectorType → Type 0
IsRouted list (layer2 td) = AllEntries (λ address peer_id. IsKnown peer_id list) td.mac_table
IsRouted list (layer3 td) = AllEntries (λ address peer_id. IsKnown peer_id list) td.routing_table

abbrev pub IsLogging : Option (Sink LogEntry) → Type 0
IsLogging none = Unit
IsLogging (some if_log) = IsOpen if_log

pub record IsSafe (now : ℕ) (cm : ConnectionManager) : Type 0 where
  pub list : Validity.IsValid now cm.peer_list
  pub routed : IsRouted cm.peer_list cm.traffic_director
  pub remotes : IsOpen cm.udp_output_broadcast_to_remotes
  pub local : IsOpen cm.packets_to_local
  pub logging : IsLogging cm.interface_logger
  pub own_id : cm.own_peer_id < 2 ^ 16
  pub own_ip : IsTunIp cm.own_tun_ip

IsRouted-mono :
    (list after : PeerList) (td : DirectorType)
    → ((j : ℕ) → IsKnown j list → IsKnown j after)
    → IsRouted list td
    → IsRouted after td
IsRouted-mono list after (layer2 td) h r = AllEntries-mono _ _ td.mac_table (λ _ j. h j) r
IsRouted-mono list after (layer3 td) h r = AllEntries-mono _ _ td.routing_table (λ _ j. h j) r

-- A change of the peer list that keeps it valid and forgets no peer.
pub with_list :
    (now : ℕ) (after : PeerList) (cm : ConnectionManager)
    → Validity.IsValid now after
    → ((j : ℕ) → IsKnown j cm.peer_list → IsKnown j after)
    → IsSafe now cm
    → IsSafe now (record cm { peer_list = after })
with_list now after cm v h s = record {
  list = v;
  routed = IsRouted-mono cm.peer_list after cm.traffic_director h s.routed;
  remotes = s.remotes;
  local = s.local;
  logging = s.logging;
  own_id = s.own_id;
  own_ip = s.own_ip;
}

pub sent-IsSafe :
    (now : ℕ) (datagrams : List OutgoingUdpPacket) (cm : ConnectionManager)
    → IsSafe now cm
    → IsSafe now (sent datagrams cm)
sent-IsSafe now datagrams cm s = record {
  list = s.list;
  routed = s.routed;
  remotes = s.remotes;
  local = s.local;
  logging = s.logging;
  own_id = s.own_id;
  own_ip = s.own_ip;
}

pub increment-IsSafe :
    (now peer_id : ℕ) (cm : ConnectionManager)
    → IsSafe now cm
    → IsSafe now (record cm { peer_list = PeerList.increment_peer_tx_counter peer_id cm.peer_list })
unfolding PeerList.increment_peer_tx_counter
increment-IsSafe now peer_id cm s =
    with_list now _ cm (Validity.increment_peer_tx_counter-IsValid peer_id now cm.peer_list s.list)
      (λ j. update-IsKnown peer_id j PeerList.increment_tx_counter cm.peer_list) s

-- Time passes.
pub IsSafe-mono :
    (now later : ℕ) (cm : ConnectionManager) → now ≤ later → IsSafe now cm → IsSafe later cm
IsSafe-mono now later cm h s = record {
  list = Validity.IsValid-mono now later cm.peer_list h s.list;
  routed = s.routed;
  remotes = s.remotes;
  local = s.local;
  logging = s.logging;
  own_id = s.own_id;
  own_ip = s.own_ip;
}
