-- ===== src/Socket/Address.antt =====
-- Which address `interface_to_ipaddr` of src/remote.rs finds.
use Prim.Native.String.{String}
use text.Mathlib.Text
use text.Mathlib.TextEquality.{eq_iff}
use mpconn.Base.{
  ap, ◌≡◌, ◌≢◌, ◌↔◌, ◌⊎◌, inl, inr, Bool-cases, none, some, List, [], ◌∷◌, find, arith,
}
use mpconn.Net.{Ipv4Addr, IpAddr, v4, v6}
use mpconn.Socket.{
  NetworkInterface, IoResult, ok, err, addr_not_available, is_ipv4, to_ipv4, interface_to_ipaddr,
}

-- The first IPv4 address of a list.
abbrev pub IsFirstIpv4 : Ipv4Addr → List IpAddr → Type 0
IsFirstIpv4 ip [] = ⊥
IsFirstIpv4 ip (v4 a ∷ ips) = a ≡ ip
IsFirstIpv4 ip (v6 a ∷ ips) = IsFirstIpv4 ip ips

-- The first IPv4 address of the first interface of a name.
abbrev pub IsAddressOf : String → Ipv4Addr → List NetworkInterface → Type 0
IsAddressOf name ip [] = ⊥
IsAddressOf name ip (iface ∷ interfaces) =
    ((iface.name ≡ name) × IsFirstIpv4 ip iface.ips)
    ⊎ ((iface.name ≢ name) × IsAddressOf name ip interfaces)

-- The address that the function takes from the interface that it found.
abbrev first_ipv4 : List IpAddr → IoResult Ipv4Addr
first_ipv4 ips = elim (find is_ipv4 ips) [
  | none ↦ err addr_not_available
  | some ipaddr ↦ to_ipv4 ipaddr
]

first_ipv4-IsFirstIpv4 :
    (ip : Ipv4Addr) (ips : List IpAddr) → (first_ipv4 ips ≡ ok ip) ↔ IsFirstIpv4 ip ips
first_ipv4-IsFirstIpv4 ip [] = (λ e. ground (arith, e), λ h. absurd h)
first_ipv4-IsFirstIpv4 ip (v4 a ∷ ips) = (λ e. cc, λ e. ap ok e)
first_ipv4-IsFirstIpv4 ip (v6 a ∷ ips) = first_ipv4-IsFirstIpv4 ip ips

-- `interface_to_ipaddr` gives an address exactly when it is the first IPv4 address of the first
-- interface with the name that was asked for.
pub interface_to_ipaddr-IsAddressOf :
    (name : String) (ip : Ipv4Addr) (interfaces : List NetworkInterface)
    → (interface_to_ipaddr interfaces name ≡ ok ip) ↔ IsAddressOf name ip interfaces
unfolding interface_to_ipaddr
interface_to_ipaddr-IsAddressOf name ip [] = (λ e. ground (arith, e), λ h. absurd h)
interface_to_ipaddr-IsAddressOf name ip (iface ∷ interfaces) =
    elim (Bool-cases (Text.◌==◌ iface.name name)) [
      | inl same ↦
          let named = (eq_iff iface.name name).0 same in
          let (there, back) = first_ipv4-IsFirstIpv4 ip iface.ips in
          rw (same, interface_to_ipaddr)
            (
              λ e. inl (named, there e),
              λ h. elim h [ inl found ↦ back found.1 | inr other ↦ absurd (other.0 named) ],
            )
      | inr differ ↦
          let (there, back) = interface_to_ipaddr-IsAddressOf name ip interfaces in
          let differs : iface.name ≢ name =
            λ p. ground (arith, differ, (eq_iff iface.name name).1 p) in
          rw (differ, interface_to_ipaddr)
            (
              λ e. inr (differs, there e),
              λ h. elim h [ inl found ↦ absurd (differs found.0) | inr other ↦ back other.1 ],
            )
    ]
