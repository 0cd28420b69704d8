-- ===== src/ConnectionManager/State.antt =====
-- The state of src/connection_manager.rs, `new`, and what the handlers share. Each handler takes
-- the state to the next one, or panics. A handler that reads the clock takes one reading, `now`, in
-- nanoseconds since the epoch. The source reads the clock again inside a handler to overwrite
-- `last_update` and the times of connections, and in the tick of the sequencers to test the deadline of
-- each peer: the model has a handler take no time, so that these readings are the same.
use Prim.Native.String.{String}
use mpconn.Base.{
  ℕ, Option, none, some, List, [], ◌∷◌, if◌then◌else◌, Outcome, done, panic, ◌>>=◌, no_receiver,
  io_failure,
}
use mpconn.Messages.{Bytes, Keepalive, OutgoingUdpPacket}
use mpconn.Net.{Ipv4Addr, SocketAddr}
use mpconn.PeerList
use mpconn.PeerList.{PeerList, from_secs, from_millis}
use mpconn.Settings.{SettingsFile, LocalTypes}
use mpconn.Settings
use mpconn.Sink.{Sink, put}
use mpconn.TrafficDirector.{DirectorType, layer2, layer3, new_layer2, new_layer3}

-- A line of the interface log: `{time_stamp},{sequence_number},{receiver_interface}`.
pub record LogEntry : Type 0 where
  pub time_stamp : ℕ
  pub sequence_number : ℕ
  pub receiver_interface : String

pub record ConnectionManager : Type 0 where
  pub interface_logger : Option (Sink LogEntry)
  pub udp_output_broadcast_to_remotes : Sink OutgoingUdpPacket
  pub packets_to_local : Sink Bytes
  pub peer_list : PeerList
  pub traffic_director : DirectorType
  pub own_peer_id : ℕ
  pub own_tun_ip : Option Ipv4Addr
  pub maintenance_interval : ℕ
  pub global_sequencer_interval : ℕ
  pub keepalive_interval : ℕ

unfoldable pub director_for : LocalTypes → DirectorType
unfolding new_layer2 new_layer3
director_for (Settings.layer2 network_interface) = layer2 new_layer2
director_for (Settings.layer3 tun_ip) = layer3 new_layer3

abbrev pub tun_ip_for : LocalTypes → Option Ipv4Addr
tun_ip_for (Settings.layer2 network_interface) = none
tun_ip_for (Settings.layer3 tun_ip) = some tun_ip

unfoldable pub new :
    SettingsFile
    → Option (Sink LogEntry)
    → Sink OutgoingUdpPacket
    → Sink Bytes
    → ℕ
    → ConnectionManager
new settings interface_logger to_remotes to_local now = record {
  interface_logger = interface_logger;
  udp_output_broadcast_to_remotes = to_remotes;
  packets_to_local = to_local;
  peer_list = PeerList.new (some settings.peers) now;
  traffic_director = director_for settings.local;
  own_peer_id = settings.peer_id;
  own_tun_ip = tun_ip_for settings.local;
  maintenance_interval = from_secs 5;
  global_sequencer_interval = from_millis 1;
  keepalive_interval = from_secs 10;
}

-- `for socket in … { self.udp_output_broadcast_to_remotes.send(OutgoingUDPPacket { … }).unwrap() }`
unfoldable pub send_copies :
    List SocketAddr → Bytes → Sink OutgoingUdpPacket → Outcome (Sink OutgoingUdpPacket)
send_copies [] packet_bytes out = done out
send_copies (socket ∷ sockets) packet_bytes out =
    put no_receiver (record { destination = socket; packet_bytes = packet_bytes }) out
    >>= send_copies sockets packet_bytes

unfoldable pub send_to_remotes :
    List SocketAddr → Bytes → ConnectionManager → Outcome ConnectionManager
unfolding send_copies
send_to_remotes sockets packet_bytes cm = do
  out ← send_copies sockets packet_bytes cm.udp_output_broadcast_to_remotes
  done (record cm { udp_output_broadcast_to_remotes = out })

unfoldable pub write_interface_log : ℕ → String → ℕ → ConnectionManager → Outcome ConnectionManager
write_interface_log now receiver_interface sequence_number cm = elim cm.interface_logger [
  | none ↦ done cm
  | some if_log ↦
      put io_failure
        (record {
          time_stamp = now;
          sequence_number = sequence_number;
          receiver_interface = receiver_interface;
        })
        if_log
      >>= λ if_log'. done (record cm { interface_logger = some if_log' })
]

-- `if_log.flush().await.unwrap()`. The log is behind a `BufWriter`, which shows that the file fails at
-- this call or at a write before it that empties the buffer; here the first of the calls panics.
unfoldable pub flush : Option (Sink LogEntry) → ConnectionManager → Outcome ConnectionManager
flush none cm = done cm
flush (some if_log) cm = if if_log.accepts then done cm else panic io_failure

unfoldable pub flush_interface_log : ConnectionManager → Outcome ConnectionManager
unfolding flush
flush_interface_log cm = flush cm.interface_logger cm

-- The `Keepalive` that both keepalive handlers build.
abbrev pub keepalive_message : ConnectionManager → Keepalive
keepalive_message cm = record { peer_id = cm.own_peer_id; tun_ip = cm.own_tun_ip }
