-- ===== src/Tests/EdgeRuns.antt =====
-- Tests of src/remote.rs, src/remote_manager.rs, src/local_manager.rs and src/async_pcap.rs.
use mpconn.Base.{
  zero, ◌≡◌, ◌↔◌, refl, true, Option, none, some, List, [], ◌∷◌, arith, done, panic,
  not_decompressible,
}
use mpconn.AsyncPcap.{
  Readiness, Capture, pending, is_ready, captured, capture_error, packet_sent, poll_read,
}
use mpconn.AsyncPcap.Polls.{first_captured, fill, poll_read-fill}
use mpconn.Local
use mpconn.LocalManager
use mpconn.LocalManager.{LocalManager, tun_result, new_packet_to_local}
use mpconn.LocalManager.Packets.{after_packets, writings, writer_of, reader_of}
use mpconn.LocalManager.Packets
use mpconn.LocalManager.Traffic.{idle, run-after_packets}
use mpconn.Messages.{Bytes}
use mpconn.Net.{v4, v6}
use mpconn.Remote.{
  Lz4, IsLz4, AsyncRemote, udp, udp_lz4, received, sent, network_unreachable, unparsed, write, read,
  get_interface, new_udp,
}
use mpconn.Remote.RoundTrip.{with_datagram, read-write}
use mpconn.RemoteManager
use mpconn.RemoteManager.{Task, packet, lagged, outgoing, incoming, make_remote, make_tasks}
use mpconn.RemoteManager.Defaults.{AreTasksFor, new-AreTasksFor}
use mpconn.RemoteManager.Traffic.{
  after_traffic, written, readings, wire_of, plain_of, run-after_traffic,
}
use mpconn.Settings.{SettingsFile}
use mpconn.Settings
use mpconn.Socket.Address.{IsAddressOf, interface_to_ipaddr-IsAddressOf}
use mpconn.Socket.Binding.{IsBound, make_socket-IsBound}
use mpconn.Socket.{
  ok, NetworkInterface, Os, UdpSocket, make_socket, bind_device, interface_to_ipaddr,
}
use mpconn.Tests.Values.{home, away, settings, open_sink}

-- A compressor that puts a mark in front.
abbrev unmark : Bytes → Option Bytes
unmark (zero ∷ bytes) = some bytes
unmark _ = none

abbrev pub marking : Lz4
marking = record { compress = λ bytes. 0 ∷ bytes; decompress = unmark }

pub marking-IsLz4 : IsLz4 marking
marking-IsLz4 b short = refl

abbrev interfaces : List NetworkInterface
interfaces =
    record { name = "lo"; ips = v4 0x7f000001 ∷ [] }
    ∷ record { name = "eth1"; ips = v6 1 ∷ v4 0x0a000001 ∷ [] }
    ∷ []

abbrev pub os : Os
os = record {
  interfaces = interfaces;
  creates_socket = true;
  binds_device = λ name. true;
  binds = λ ip port. true;
  sets_nonblocking = true;
  registers = true;
}

interface_to_ipaddr-IsAddressOf_example :
    (interface_to_ipaddr interfaces "eth1" ≡ ok 0x0a000001)
    ↔ IsAddressOf "eth1" 0x0a000001 interfaces
interface_to_ipaddr-IsAddressOf_example =
    interface_to_ipaddr-IsAddressOf "eth1" 0x0a000001 interfaces

abbrev socket : UdpSocket
socket = record { device = some "eth1"; local_address = 0x0a000001; local_port = 10000 }

make_socket-IsBound_example :
    (make_socket os "eth1" none 10000 true ≡ done socket) ↔ IsBound os "eth1" none 10000 true socket
make_socket-IsBound_example = make_socket-IsBound os "eth1" none 10000 true socket

made : make_socket os "eth1" none 10000 true ≡ done socket
unfolding make_socket bind_device interface_to_ipaddr
made = refl

abbrev pub plain_remote : AsyncRemote
plain_remote = udp (record { interface = "eth1"; socket = socket; output = [] })

abbrev pub packed_remote : AsyncRemote
packed_remote = udp_lz4 (record { interface = "eth1"; socket = socket; output = [] })

read-write_example :
    (datagram : Bytes) × (write marking sent (4 ∷ 5 ∷ []) home packed_remote
      ≡ done (with_datagram datagram home packed_remote))
    × (read marking (some (received datagram away)) packed_remote
        ≡ done (some (unparsed (get_interface packed_remote) (4 ∷ 5 ∷ []) away)))
read-write_example =
    read-write marking (4 ∷ 5 ∷ []) home away packed_remote packed_remote marking-IsLz4 tt
      (omega arith)

-- A datagram that does not decompress is a panic.
read_garbage : read marking (some (received (9 ∷ []) away)) packed_remote ≡ panic not_decompressible
unfolding read
read_garbage = refl

abbrev pub task : Task
task = record { remote = packed_remote; mpsc_channel = open_sink }

abbrev pub traffic : List RemoteManager.Event
traffic =
    outgoing (packet (record { destination = home; packet_bytes = 4 ∷ [] })) sent
    ∷ outgoing (lagged 3) sent
    ∷ incoming (some (received (0 ∷ 6 ∷ []) away))
    ∷ outgoing (packet (record { destination = away; packet_bytes = 5 ∷ [] })) network_unreachable
    ∷ []

run-after_traffic_example :
    RemoteManager.run marking traffic task
    ≡ done (
        after_traffic
          (written (wire_of marking packed_remote) traffic)
          (readings (plain_of marking packed_remote) (get_interface packed_remote) traffic)
          task)
run-after_traffic_example =
    run-after_traffic marking traffic task (tt, (tt, ((6 ∷ [], refl), (tt, tt)))) refl

abbrev pub with_remote : SettingsFile
with_remote = record settings { remotes = Settings.udp "eth1" none 10000 none ∷ [] }

made_tasks :
    RemoteManager.new os with_remote open_sink
    ≡ done (record { remote = plain_remote; mpsc_channel = open_sink } ∷ [])
unfolding RemoteManager.new make_tasks make_remote new_udp make_socket bind_device
    interface_to_ipaddr
made_tasks = refl

new-AreTasksFor_example :
    AreTasksFor os open_sink with_remote.remotes
      (record { remote = plain_remote; mpsc_channel = open_sink } ∷ [])
new-AreTasksFor_example =
    new-AreTasksFor os with_remote open_sink
      (record { remote = plain_remote; mpsc_channel = open_sink } ∷ []) made_tasks

abbrev rounds : List (Readiness × Capture)
rounds = (is_ready, capture_error) ∷ (is_ready, captured (2 ∷ 3 ∷ [])) ∷ []

poll_read-fill_example : poll_read rounds idle ≡ fill (first_captured rounds) idle
poll_read-fill_example = poll_read-fill rounds idle

abbrev pub local_task : LocalManager
local_task = record {
  local = record {
    reader = Local.layer2_reader;
    writer = Local.layer2_writer (record { sent = [] });
  };
  packets_from_local = open_sink;
  tun_buf = idle;
}

abbrev pub packets : List LocalManager.Event
packets =
    tun_result (record { pcap = rounds; tun = pending })
    ∷ new_packet_to_local (some (7 ∷ [])) (record { pcap = some packet_sent; tun = none })
    ∷ []

run-after_packets_example :
    LocalManager.run packets local_task
    ≡ done (
        after_packets
          (writings (writer_of local_task.local.writer) packets)
          (Packets.readings (reader_of local_task.local.reader) packets)
          local_task)
run-after_packets_example =
    run-after_packets packets local_task (omega arith, ((((7 ∷ []) ∷ []), refl), tt)) refl refl
