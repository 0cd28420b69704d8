-- ===== src/Tests/Values.antt =====
-- Packets, addresses, a reader of frames and a manager, for the tests.
use mpconn.Base.{ℕ, true, Option, none, some, [], ◌∷◌}
use mpconn.Messages.{Bytes, Packet}
use mpconn.Net.{SocketAddr, v4, MacAddr}
use mpconn.Settings.{SettingsFile, layer2}
use mpconn.Sink.{Sink}
use mpconn.TrafficDirector.{SlicedPacket, EtherPacket, IpPacket, ipv4}

abbrev pub pkt : ℕ → Bytes → Packet
pkt seq bytes = record { seq = seq; peer_id = 7; bytes = bytes }

abbrev pub home : SocketAddr
home = record { ip = v4 0x7f000001; port = 10000 }

abbrev pub away : SocketAddr
away = record { ip = v4 0x0a000001; port = 10001 }

abbrev read_mac : ℕ → MacAddr
read_mac b = b ∷ b ∷ b ∷ b ∷ b ∷ b ∷ []

abbrev read_frame : Bytes → Option EtherPacket
read_frame (dst ∷ src ∷ rest) =
    some (record { link = some (record { source = read_mac src; destination = read_mac dst }) })
read_frame _ = none

abbrev read_ip : Bytes → Option IpPacket
read_ip (dst ∷ rest) = some (record { ip = some (ipv4 dst) })
read_ip [] = none

-- Frames that begin with a byte for the destination and one for the source; packets that begin with a
-- byte for the destination.
abbrev pub slicer : SlicedPacket
slicer = record { from_ethernet = read_frame; from_ip = read_ip }

abbrev pub open_sink : {A : Type 0} → Sink A
open_sink = record { taken = []; accepts = true }

abbrev pub settings : SettingsFile
settings = record {
  peers = record { addresses = home ∷ away ∷ []; id = 7 } ∷ [];
  keep_alive_interval = 10;
  local = layer2 "eth0";
  remotes = [];
  peer_id = 5;
}
