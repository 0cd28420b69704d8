-- ===== src/Socket.antt =====
-- The sockets of src/remote.rs: which address a socket is bound to, and `make_socket`. What the
-- operating system answers to the calls is a parameter, `Os`.
pub mod Address
pub mod Binding
use Prim.Native.String.{String}
use text.Mathlib.Text
use mpconn.Base.{
  ℕ, Bool, true, false, Option, none, some, List, find, if◌then◌else◌, Outcome, done, panic, check,
  ◌>>=◌, io_failure,
}
use mpconn.Net.{Ipv4Addr, IpAddr, v4, v6}

-- An interface of `pnet_datalink::interfaces`, with the addresses of its networks.
pub record NetworkInterface : Type 0 where
  pub name : String
  pub ips : List IpAddr

-- `std::io::ErrorKind`, as far as the program makes such errors itself.
pub data ErrorKind : Type 0 where
  not_found addr_not_available : ErrorKind

pub data IoResult (A : Type 0) : Type 0 where
  ok : A → IoResult A
  err : ErrorKind → IoResult A

abbrev pub is_ipv4 : IpAddr → Bool
is_ipv4 (v4 ip) = true
is_ipv4 (v6 ip) = false

-- `.find(|iface| iface.name == interface)`
abbrev pub has_name : String → NetworkInterface → Bool
has_name interface iface = Text.◌==◌ iface.name interface

-- `if let IpAddr::V4(ipaddr) = ipaddr.ip() { return Ok(ipaddr) }`
abbrev pub to_ipv4 : IpAddr → IoResult Ipv4Addr
to_ipv4 (v4 ip) = ok ip
to_ipv4 (v6 ip) = err addr_not_available

unfoldable pub interface_to_ipaddr : List NetworkInterface → String → IoResult Ipv4Addr
interface_to_ipaddr interfaces interface = elim (find (has_name interface) interfaces) [
  | none ↦ err not_found
  | some iface ↦ elim (find is_ipv4 iface.ips) [
    | none ↦ err addr_not_available
    | some ipaddr ↦ to_ipv4 ipaddr
  ]
]

-- Which system calls succeed.
pub record Os : Type 0 where
  pub interfaces : List NetworkInterface
  pub creates_socket : Bool
  pub binds_device : String → Bool
  pub binds : Ipv4Addr → ℕ → Bool
  pub sets_nonblocking : Bool
  -- `UdpSocket::from_std`, which gives the socket to the reactor of tokio
  pub registers : Bool

pub record UdpSocket : Type 0 where
  pub device : Option String
  pub local_address : Ipv4Addr
  pub local_port : ℕ

-- `if bind_to_device { if let Err(err) = socket.bind_device(…) { panic!(…) } }`
unfoldable pub bind_device : Os → String → Bool → Outcome (Option String)
bind_device os interface bind_to_device =
    if bind_to_device
    then if os.binds_device interface then done (some interface) else panic io_failure
    else done none

-- `interface_to_ipaddr(interface).unwrap()`
abbrev pub unwrap_io : IoResult Ipv4Addr → Outcome Ipv4Addr
unwrap_io (ok ip) = done ip
unwrap_io (err e) = panic io_failure

abbrev pub choose_address : Os → String → Option Ipv4Addr → Outcome Ipv4Addr
choose_address os interface (some local_address) = done local_address
choose_address os interface none = unwrap_io (interface_to_ipaddr os.interfaces interface)

unfoldable pub make_socket : Os → String → Option Ipv4Addr → ℕ → Bool → Outcome UdpSocket
unfolding bind_device
make_socket os interface listen_addr local_port bind_to_device = do
  _ ← check os.creates_socket
  device ← bind_device os interface bind_to_device
  local_address ← choose_address os interface listen_addr
  _ ← check (os.binds local_address local_port)
  _ ← check os.sets_nonblocking
  _ ← check os.registers
  done (record { device = device; local_address = local_address; local_port = local_port })
