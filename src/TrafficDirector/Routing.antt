-- ===== src/TrafficDirector/Routing.antt =====
-- The layer 3 half of src/traffic_director.rs.
use mpconn.Base.{ℕ, ◌≡◌, ◌↔◌, true, Option-cases, inl, inr, none, some, ite, arith}
use mpconn.Base.HashMap
use mpconn.Base.HashMap.{get-insert, AllEntries, get-AllEntries, insert-AllEntries}
use mpconn.Messages.{Bytes}
use mpconn.Net.{IpAddr, IpAddr-discrete}
use mpconn.TrafficDirector.{
  SlicedPacket, Layer3Director, insert_route, extract_destination_address, get_route,
}
use mpconn.TrafficDirector.Learning.{first_learnt}

-- `insert_route` enters the peer for an address that has no route and says so; an address that has
-- one keeps it; all other routes stay.
get-insert_route :
    (peer_id : ℕ) (address other : IpAddr) (td : Layer3Director)
    → (HashMap.get IpAddr-discrete other (insert_route peer_id address td).0.routing_table
        ≡ ite
            (IpAddr-discrete address other)
            (first_learnt peer_id (HashMap.get IpAddr-discrete other td.routing_table))
            (HashMap.get IpAddr-discrete other td.routing_table))
      × (((insert_route peer_id address td).1 ≡ true)
          ↔ (HashMap.get IpAddr-discrete address td.routing_table ≡ none))
unfolding insert_route HashMap.contains_key
get-insert_route peer_id address other td =
    ground (arith, get-insert IpAddr-discrete address other peer_id td.routing_table)

pub insert_route-AllEntries :
    (P : IpAddr → ℕ → Type 0) (peer_id : ℕ) (address : IpAddr) (td : Layer3Director)
    → P address peer_id
    → AllEntries P td.routing_table
    → AllEntries P (insert_route peer_id address td).0.routing_table
unfolding insert_route
insert_route-AllEntries P peer_id address td h a =
    ground (arith, insert-AllEntries IpAddr-discrete P address peer_id td.routing_table h a)

-- A packet for an address goes to the peer that announced the address first.
pub get_route-insert_route :
    (slicer : SlicedPacket) (peer_id : ℕ) (address : IpAddr) (td : Layer3Director) (packet : Bytes)
    → extract_destination_address slicer packet ≡ some address
    → get_route slicer packet (insert_route peer_id address td).0
      ≡ first_learnt peer_id (get_route slicer packet td)
unfolding get_route
get_route-insert_route slicer peer_id address td packet e =
    ground (arith, e, get-insert_route peer_id address address td)

-- A route comes out of the table.
pub get_route-AllEntries :
    (slicer : SlicedPacket) (P : IpAddr → ℕ → Type 0) (Q : ℕ → Type 0) (packet : Bytes)
    (td : Layer3Director) (peer_id : ℕ)
    → ((address : IpAddr) (id : ℕ) → P address id → Q id)
    → AllEntries P td.routing_table
    → get_route slicer packet td ≡ some peer_id
    → Q peer_id
unfolding get_route
get_route-AllEntries slicer P Q packet td peer_id h a e =
    elim (Option-cases (extract_destination_address slicer packet)) [
      | inl unread ↦ absurd (ground (arith, unread, e))
      | inr (address, read) ↦ h address peer_id (
          get-AllEntries IpAddr-discrete P address peer_id td.routing_table a
            (ground (arith, read, e)))
    ]
