-- ===== src/TrafficDirector.antt =====
-- src/traffic_director.rs: which peer a packet of the local interface goes to, by the Ethernet
-- addresses seen so far or by the routes that peers announced.
pub mod Learning
pub mod Routing
use mpconn.Base.{ℕ, Bool, true, false, Option, none, some, [], ◌∷◌, ite, if◌then◌else◌, ℕ_discrete}
use mathlib.Core.Option
use mpconn.Base.HashMap
use mpconn.Base.HashMap.{HashMap}
use mpconn.Messages.{Bytes}
use mpconn.Net.{Ipv4Addr, IpAddr, v4, MacAddr, MacAddr-discrete, IpAddr-discrete}

-- What the program reads of the slices that the crate `etherparse` makes of a packet. An error of the
-- crate is `none`.
pub record Ethernet2 : Type 0 where
  pub source : MacAddr
  pub destination : MacAddr

pub record EtherPacket : Type 0 where
  pub link : Option Ethernet2

pub data InternetSlice : Type 0 where
  ipv4 : Ipv4Addr → InternetSlice
  ipv6 : InternetSlice

pub record IpPacket : Type 0 where
  pub ip : Option InternetSlice

-- `SlicedPacket::from_ethernet` and `SlicedPacket::from_ip`
pub record SlicedPacket : Type 0 where
  pub from_ethernet : Bytes → Option EtherPacket
  pub from_ip : Bytes → Option IpPacket

-- `enum Path`
pub data TrafficPath : Type 0 where
  broadcast : TrafficPath
  peer : ℕ → TrafficPath

pub record Layer2Director : Type 0 where
  pub mac_table : HashMap MacAddr ℕ
  pub peerid_table : HashMap ℕ IpAddr

pub record Layer3Director : Type 0 where
  pub routing_table : HashMap IpAddr ℕ

pub data DirectorType : Type 0 where
  layer2 : Layer2Director → DirectorType
  layer3 : Layer3Director → DirectorType

unfoldable pub new_layer2 : Layer2Director
new_layer2 = record { mac_table = []; peerid_table = [] }

unfoldable pub new_layer3 : Layer3Director
new_layer3 = record { routing_table = [] }

abbrev pub broadcast_address : MacAddr
broadcast_address = 0xff ∷ 0xff ∷ 0xff ∷ 0xff ∷ 0xff ∷ 0xff ∷ []

-- A new route; the result says whether the address had none.
unfoldable pub insert_route : ℕ → IpAddr → Layer3Director → Layer3Director × Bool
insert_route peer_id address td =
    if HashMap.contains_key IpAddr-discrete address td.routing_table then (td, false) else (
      record { routing_table = HashMap.insert IpAddr-discrete address peer_id td.routing_table },
      true,
    )

module _ (slicer : SlicedPacket) where
  unfoldable pub extract_ether_src : Bytes → Option MacAddr
  extract_ether_src packet_bytes = elim (slicer.from_ethernet packet_bytes) [
    | some ether_packet ↦ Option.map (λ link. link.source) ether_packet.link
    | none ↦ none
  ]

  unfoldable pub extract_ether_dst : Bytes → Option MacAddr
  extract_ether_dst packet_bytes = elim (slicer.from_ethernet packet_bytes) [
    | some ether_packet ↦ Option.map (λ link. link.destination) ether_packet.link
    | none ↦ none
  ]

  unfoldable pub learn_path : ℕ → Bytes → Layer2Director → Layer2Director
  learn_path peer_id packet_bytes td = elim (extract_ether_src packet_bytes) [
    | some source ↦
        if HashMap.contains_key MacAddr-discrete source td.mac_table
        then td
        else record td { mac_table = HashMap.insert MacAddr-discrete source peer_id td.mac_table }
    | none ↦ td
  ]

  unfoldable pub get_path : Bytes → Layer2Director → Option TrafficPath
  get_path packet_bytes td = elim (extract_ether_dst packet_bytes) [
    | some destination ↦
        ite (MacAddr-discrete destination broadcast_address) (some broadcast)
          (Option.map peer (HashMap.get MacAddr-discrete destination td.mac_table))
    | none ↦ none
  ]

  unfoldable pub extract_destination_address : Bytes → Option IpAddr
  extract_destination_address packet_bytes = elim (slicer.from_ip packet_bytes) [
    | none ↦ none
    | some ip_packet ↦ elim ip_packet.ip [
      | some slice ↦ elim slice [ ipv4 destination ↦ some (v4 destination) | ipv6 ↦ none ]
      | none ↦ none
    ]
  ]

  unfoldable pub get_route : Bytes → Layer3Director → Option ℕ
  get_route packet_bytes td = elim (extract_destination_address packet_bytes) [
    | some destination ↦ HashMap.get IpAddr-discrete destination td.routing_table
    | none ↦ none
  ]
