-- ===== src/Remote.antt =====
-- The remotes of src/remote.rs: datagrams over UDP, plain or compressed. A remote stands for its trait
-- object `Box<dyn AsyncRemote>`. What the socket answers is an argument of each call: the item of the
-- input stream, `none` where the stream has ended, and the result of a send. The crate `lz4_flex` is
-- the parameter `Lz4`.
pub mod RoundTrip
use Prim.Native.String.{String}
use mpconn.Base.{
  ℕ, ◌<◌, ◌^◌, ◌≡◌, Bool, Option, none, some, List, [], ◌∷◌, ◌++◌, length, Outcome, done, panic,
  ◌>>=◌, io_failure, not_decompressible,
}
use mpconn.Messages.{Bytes, IncomingUnparsedPacket}
use mpconn.Net.{Ipv4Addr, SocketAddr}
use mpconn.Socket.{Os, UdpSocket, make_socket}

-- `compress_prepend_size` and `decompress_size_prepended`, where `none` is an error
pub record Lz4 : Type 0 where
  pub compress : Bytes → Bytes
  pub decompress : Bytes → Option Bytes

-- What is compressed, of a length that fits the prepended size, decompresses to itself.
abbrev pub IsLz4 : Lz4 → Type 0
IsLz4 lz4 = (b : Bytes) → length b < 2 ^ 32 → lz4.decompress (lz4.compress b) ≡ some b

-- An item of the input stream.
pub data Item : Type 0 where
  received : Bytes → SocketAddr → Item
  receive_error : Item

-- What a send gives; `other` is each error but `NetworkUnreachable`.
pub data SendResult : Type 0 where
  sent network_unreachable other : SendResult

-- `output` is what the socket has sent, oldest first.
pub record UdpRemote : Type 0 where
  pub interface : String
  pub socket : UdpSocket
  pub output : List (Bytes × SocketAddr)

pub data AsyncRemote : Type 0 where
  udp : UdpRemote → AsyncRemote
  udp_lz4 : UdpRemote → AsyncRemote

-- `UDPremote::write`; the match on the result of the send stands in both remotes.
unfoldable pub write_udp : SendResult → Bytes → SocketAddr → UdpRemote → Outcome UdpRemote
write_udp sent buffer destination r =
    done (record r { output = r.output ++ (buffer, destination) ∷ [] })
write_udp network_unreachable buffer destination r = done r
write_udp other buffer destination r = panic io_failure

-- `IncomingUnparsedPacket { … }`
abbrev pub unparsed : String → Bytes → SocketAddr → IncomingUnparsedPacket
unparsed interface bytes adder = record {
  receiver_interface = interface;
  received_from = adder;
  bytes = bytes;
}

-- `decompress_size_prepended(…).unwrap()`
abbrev pub unwrap_bytes : Option Bytes → Outcome Bytes
unwrap_bytes none = panic not_decompressible
unwrap_bytes (some bytes) = done bytes

-- `UDPremote::read`
unfoldable pub read_udp : Option Item → UdpRemote → Outcome (Option IncomingUnparsedPacket)
read_udp none r = panic io_failure
read_udp (some (received bytes adder)) r = done (some (unparsed r.interface bytes adder))
read_udp (some receive_error) r = done none

-- `UDPremote::new`
unfoldable pub new_udp : Os → String → Option Ipv4Addr → ℕ → Bool → Outcome UdpRemote
new_udp os iface listen_addr listen_port bind_to_device = do
  socket ← make_socket os iface listen_addr listen_port bind_to_device
  done (record { interface = iface; socket = socket; output = [] })

-- `UDPLz4Remote::new`, which writes out the same steps for its inner remote
unfoldable pub new_lz4 : Os → String → Option Ipv4Addr → ℕ → Bool → Outcome UdpRemote
new_lz4 os iface listen_addr listen_port bind_to_device = do
  socket ← make_socket os iface listen_addr listen_port bind_to_device
  let inner : UdpRemote = record { interface = iface; socket = socket; output = [] }
  done inner

module _ (lz4 : Lz4) where
  -- `UDPLz4Remote::write`
  unfoldable pub write_lz4 : SendResult → Bytes → SocketAddr → UdpRemote → Outcome UdpRemote
  unfolding write_udp
  write_lz4 result buffer destination r = write_udp result (lz4.compress buffer) destination r

  -- `UDPLz4Remote::read`
  unfoldable pub read_lz4 : Option Item → UdpRemote → Outcome (Option IncomingUnparsedPacket)
  read_lz4 none r = panic io_failure
  read_lz4 (some (received bytes adder)) r = do
    uncompressed ← unwrap_bytes (lz4.decompress bytes)
    done (some (unparsed r.interface uncompressed adder))
  read_lz4 (some receive_error) r = done none

  -- The calls of the trait's methods.
  unfoldable pub write : SendResult → Bytes → SocketAddr → AsyncRemote → Outcome AsyncRemote
  unfolding write_lz4
  write result buffer destination (udp r) = do
    r' ← write_udp result buffer destination r
    done (udp r')
  write result buffer destination (udp_lz4 r) = do
    r' ← write_lz4 result buffer destination r
    done (udp_lz4 r')

  unfoldable pub read : Option Item → AsyncRemote → Outcome (Option IncomingUnparsedPacket)
  unfolding read_udp read_lz4
  read item (udp r) = read_udp item r
  read item (udp_lz4 r) = read_lz4 item r

unfoldable pub get_interface : AsyncRemote → String
get_interface (udp r) = r.interface
get_interface (udp_lz4 r) = r.interface
