-- ===== src/Socket/Binding.antt =====
-- Which socket `make_socket` of src/remote.rs makes.
use Prim.Native.String.{String}
use mpconn.Base.{
  ℕ, ◌≡◌, ◌↔◌, Bool, Bool-cases, inl, inr, refl, ap, subst, ◌∙◌, true, false, Option, none, some,
  done, arith, bind-done, done-injective, check-true,
}
use mpconn.Net.{Ipv4Addr}
use mpconn.Socket.{
  Os, UdpSocket, IoResult, ok, err, bind_device, choose_address, make_socket, unwrap_io,
  interface_to_ipaddr,
}
use mpconn.Socket.Address.{IsAddressOf, interface_to_ipaddr-IsAddressOf}

-- The address that the settings ask for, or that of the interface.
abbrev pub IsLocalAddress : Os → String → Option Ipv4Addr → Ipv4Addr → Type 0
IsLocalAddress os interface (some listen_addr) ip = listen_addr ≡ ip
IsLocalAddress os interface none ip = IsAddressOf interface ip os.interfaces

abbrev pub IsDevice : Os → String → Bool → Option String → Type 0
IsDevice os interface true device = (os.binds_device interface ≡ true) × (some interface ≡ device)
IsDevice os interface false device = none ≡ device

-- A socket that the settings ask for and the system can give.
pub record IsBound (os : Os) (interface : String) (listen_addr : Option Ipv4Addr) (local_port : ℕ)
    (bind_to_device : Bool) (socket : UdpSocket) : Type 0 where
  pub created : os.creates_socket ≡ true
  pub device : IsDevice os interface bind_to_device socket.device
  pub address : IsLocalAddress os interface listen_addr socket.local_address
  pub bound : os.binds socket.local_address socket.local_port ≡ true
  pub port : local_port ≡ socket.local_port
  pub nonblocking : os.sets_nonblocking ≡ true
  pub registered : os.registers ≡ true

bind_device_lem :
    (os : Os) (interface : String) (bind_to_device : Bool) (device : Option String)
    → (bind_device os interface bind_to_device ≡ done device)
      ↔ IsDevice os interface bind_to_device device
unfolding bind_device
bind_device_lem os interface true device = elim (Bool-cases (os.binds_device interface)) [
  | inl binds ↦ rw binds (λ e. (refl, cc), λ h. ap done h.1)
  | inr fails ↦ rw fails (λ e. absurd (ground (arith, e)), λ h. absurd (ground (arith, h.0)))
]
bind_device_lem os interface false device = (λ e. cc, λ h. ap done h)

unwrap_io_lem : (r : IoResult Ipv4Addr) (ip : Ipv4Addr) → (unwrap_io r ≡ done ip) ↔ (r ≡ ok ip)
unwrap_io_lem (ok a) ip = (λ e. cc, λ h. cc)
unwrap_io_lem (err k) ip = (λ e. absurd (ground (arith, e)), λ h. absurd (ground (arith, h)))

choose_address_lem :
    (os : Os) (interface : String) (listen_addr : Option Ipv4Addr) (ip : Ipv4Addr)
    → (choose_address os interface listen_addr ≡ done ip)
      ↔ IsLocalAddress os interface listen_addr ip
choose_address_lem os interface (some a) ip = (λ e. cc, λ h. ap done h)
choose_address_lem os interface none ip =
    let (there, back) = unwrap_io_lem (interface_to_ipaddr os.interfaces interface) ip in
    let (found, finds) = interface_to_ipaddr-IsAddressOf interface ip os.interfaces in
    (λ e. found (there e), λ h. back (finds h))

module _ (os : Os) (interface : String) (listen_addr : Option Ipv4Addr) (local_port : ℕ)
    (bind_to_device : Bool) (socket : UdpSocket) where
  make_socket_sound :
      make_socket os interface listen_addr local_port bind_to_device ≡ done socket
      → IsBound os interface listen_addr local_port bind_to_device socket
  unfolding make_socket
  make_socket_sound e =
      let (_, created, e1) = bind-done _ _ socket e in
      let (device, on_device, e2) = bind-done _ _ socket e1 in
      let (ip, address, e3) = bind-done _ _ socket e2 in
      let (_, bound, e4) = bind-done _ _ socket e3 in
      let (_, nonblocking, e5) = bind-done _ _ socket e4 in
      let (_, registered, e6) = bind-done _ _ socket e5 in
      let is =
        done-injective (record { device = device; local_address = ip; local_port = local_port })
          socket e6 in
      let ip_is = ap (λ (x : UdpSocket). x.local_address) is in
      let port_is = ap (λ (x : UdpSocket). x.local_port) is in
      let device_is = ap (λ (x : UdpSocket). x.device) is in
      record {
        created = check-true os.creates_socket created;
        device =
            (bind_device_lem os interface bind_to_device socket.device).0
              (on_device ∙ ap done device_is);
        address =
            (choose_address_lem os interface listen_addr socket.local_address).0
              (address ∙ ap done ip_is);
        bound =
            subst (λ (x : UdpSocket). os.binds x.local_address x.local_port ≡ true) is
              (check-true (os.binds ip local_port) bound);
        port = port_is;
        nonblocking = check-true os.sets_nonblocking nonblocking;
        registered = check-true os.registers registered;
      }

  make_socket_complete :
      IsBound os interface listen_addr local_port bind_to_device socket
      → make_socket os interface listen_addr local_port bind_to_device ≡ done socket
  unfolding make_socket
  make_socket_complete v =
      let device = (bind_device_lem os interface bind_to_device socket.device).1 v.device in
      let address =
        (choose_address_lem os interface listen_addr socket.local_address).1 v.address in
      rw (v.created, device, address, v.port, v.bound, v.nonblocking, v.registered) refl

-- `make_socket` gives a socket exactly when every system call succeeds, tokio registers the socket, and the
-- socket is the one that the settings ask for: bound to the port, to the address in the settings or else to the first IPv4
-- address of the interface, and to the device if and only if that is asked for.
pub make_socket-IsBound :
    (os : Os) (interface : String) (listen_addr : Option Ipv4Addr) (local_port : ℕ)
    (bind_to_device : Bool) (socket : UdpSocket)
    → (make_socket os interface listen_addr local_port bind_to_device ≡ done socket)
      ↔ IsBound os interface listen_addr local_port bind_to_device socket
make_socket-IsBound os interface listen_addr local_port bind_to_device socket = (
  make_socket_sound os interface listen_addr local_port bind_to_device socket,
  make_socket_complete os interface listen_addr local_port bind_to_device socket,
)
