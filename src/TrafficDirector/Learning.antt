-- ===== src/TrafficDirector/Learning.antt =====
-- The layer 2 half of src/traffic_director.rs.
use mpconn.Base.{ℕ, ◌≡◌, ◌≢◌, Option-cases, inl, inr, Option, none, some, ite, arith}
use mathlib.Core.Option
use mpconn.Base.HashMap
use mpconn.Base.HashMap.{get-insert, AllEntries, get-AllEntries, insert-AllEntries}
use mpconn.Messages.{Bytes}
use mpconn.Net.{MacAddr, MacAddr-discrete}
use mpconn.TrafficDirector.{
  SlicedPacket, Layer2Director, peer, broadcast_address, extract_ether_src, extract_ether_dst,
  learn_path, get_path,
}

-- The entry of an address after its owner was seen sending.
abbrev pub first_learnt : ℕ → Option ℕ → Option ℕ
first_learnt peer_id none = some peer_id
first_learnt peer_id (some known) = some known

module _ (slicer : SlicedPacket) (peer_id : ℕ) (frame : Bytes) (td : Layer2Director) where
  -- `learn_path` enters the source address of a frame for the peer that sent it, unless the address
  -- has an entry; all other entries stay. A frame without a source address changes nothing.
  get-learn_path :
      (address : MacAddr)
      → HashMap.get MacAddr-discrete address (learn_path slicer peer_id frame td).mac_table
        ≡ elim (extract_ether_src slicer frame) [
          | none ↦ HashMap.get MacAddr-discrete address td.mac_table
          | some source ↦
              ite
                (MacAddr-discrete source address)
                (first_learnt peer_id (HashMap.get MacAddr-discrete address td.mac_table))
                (HashMap.get MacAddr-discrete address td.mac_table)
        ]
  unfolding learn_path HashMap.contains_key
  get-learn_path address = elim (Option-cases (extract_ether_src slicer frame)) [
    | inl unread ↦ ground (arith, unread)
    | inr (source, read) ↦
        ground (arith, read, get-insert MacAddr-discrete source address peer_id td.mac_table)
  ]

  -- A frame to the address that another frame came from goes to the peer that was first seen with that
  -- address, unless it is the broadcast address.
  pub get_path-learn_path :
      (reply : Bytes) (address : MacAddr)
      → extract_ether_src slicer frame ≡ some address
      → extract_ether_dst slicer reply ≡ some address
      → address ≢ broadcast_address
      → get_path slicer reply (learn_path slicer peer_id frame td)
        ≡ Option.map peer (first_learnt peer_id (HashMap.get MacAddr-discrete address td.mac_table))
  unfolding get_path
  get_path-learn_path reply address src dst unicast =
      ground (arith, src, dst, unicast, get-learn_path address)

  -- What holds of the owners in the table goes on to hold.
  pub learn_path-AllEntries :
      (P : MacAddr → ℕ → Type 0)
      → ((address : MacAddr) → P address peer_id)
      → AllEntries P td.mac_table
      → AllEntries P (learn_path slicer peer_id frame td).mac_table
  unfolding learn_path
  learn_path-AllEntries P h a = elim (Option-cases (extract_ether_src slicer frame)) [
    | inl unread ↦ rw (unread, learn_path) a
    | inr (source, read) ↦
        rw (read, learn_path)
          (ground (
            arith,
            insert-AllEntries MacAddr-discrete P source peer_id td.mac_table (h source) a,
            a,
          ))
  ]

-- A unicast destination comes out of the table.
pub get_path-AllEntries :
    (slicer : SlicedPacket) (P : MacAddr → ℕ → Type 0) (Q : ℕ → Type 0) (frame : Bytes)
    (td : Layer2Director) (peer_id : ℕ)
    → ((address : MacAddr) (id : ℕ) → P address id → Q id)
    → AllEntries P td.mac_table
    → get_path slicer frame td ≡ some (peer peer_id)
    → Q peer_id
unfolding get_path
get_path-AllEntries slicer P Q frame td peer_id h a e =
    elim (Option-cases (extract_ether_dst slicer frame)) [
      | inl unread ↦ absurd (ground (arith, unread, e))
      | inr (address, read) ↦ h address peer_id (
          get-AllEntries MacAddr-discrete P address peer_id td.mac_table a
            (ground (arith, read, e)))
    ]
