-- ===== src/Messages.antt =====
-- src/messages.rs, the messages on the wire, and src/internal_messages.rs, the messages between the
-- tasks. A byte string is a list of numbers; a `u64` and a `u16` are numbers.
use Prim.Native.String.{String}
use mpconn.Base.{ℕ, List, Option}
use mpconn.Net.{Ipv4Addr, SocketAddr}

abbrev pub Bytes : Type 0
Bytes = List ℕ

pub record Packet : Type 0 where
  pub seq : ℕ
  pub peer_id : ℕ
  pub bytes : Bytes

pub record Keepalive : Type 0 where
  pub peer_id : ℕ
  pub tun_ip : Option Ipv4Addr

pub data Messages : Type 0 where
  packet : Packet → Messages
  keepalive : Keepalive → Messages

-- Declared by the source, and used nowhere in it.
pub record IncomingPacket : Type 0 where
  pub receiver_interface : String
  pub received_from : SocketAddr
  pub packet : Packet

pub record IncomingUnparsedPacket : Type 0 where
  pub receiver_interface : String
  pub received_from : SocketAddr
  pub bytes : Bytes

pub record OutgoingUdpPacket : Type 0 where
  pub destination : SocketAddr
  pub packet_bytes : Bytes
