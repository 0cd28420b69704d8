-- ===== src/ConnectionManager/Network.antt =====
-- Two managers of src/connection_manager.rs with a network between them that loses, repeats and
-- reorders datagrams and brings others in between.
use mpconn.Base.{
  Any, Any-All, ℕ, ◌<◌, ◌^◌, ◌==◌, ◌≡◌, ◌⊎◌, inl, inr, refl, ap, sym, subst, ◌∙◌, Bool-cases, All,
  Option, Option-cases, some, none, List, [], ◌∷◌, ◌++◌, length, arith, done, done-injective,
  Returns,
}
use mpconn.Bincode.{Bincode, IsBincode, IsBytes}
use mpconn.Messages.{
  Bytes, Packet, Keepalive, Messages, packet, keepalive, IncomingUnparsedPacket, OutgoingUdpPacket,
}
use mpconn.Net.{SocketAddr}
use mpconn.PeerList
use mpconn.Sequencer
use mpconn.Sequencer.Reordering.{packets}
use mpconn.Sequencer.Stream.{first, IsEarlyArrival}
use mpconn.Sink.{extended}
use mpconn.TrafficDirector.{SlicedPacket}
use mpconn.ConnectionManager.State.{ConnectionManager}
use mpconn.ConnectionManager.Copying.{IsSent, Sent, numbered_lem, Sent-numbered, numbered-Sent}
use mpconn.ConnectionManager.Datagrams.{
  IsExpected, CanReceive, keep, decoded, handle_all_udp, handle_all_udp-decoded,
}
use mpconn.ConnectionManager.Numbering.{
  LeadTo, handle_all_from_local, handle_all_from_local-HaveGone,
}
use mpconn.ConnectionManager.Reliability.{numbered, handle_all_in_order}
use mpconn.ConnectionManager.Sends.{CanSend, Carries}
use mpconn.ConnectionManager.Streams.{IsFrom}

-- Some datagram that arrives has these bytes.
abbrev pub IsReceived : Bytes → List (ℕ × IncomingUnparsedPacket) → Type 0
IsReceived bytes l = Any (λ a. a.1.bytes ≡ bytes) l

-- No packet: a keepalive, or bytes that cannot be read.
abbrev pub IsNoPacket : Bincode → Bytes → Type 0
IsNoPacket codec bytes =
    ((k : Keepalive) × Carries codec bytes (keepalive k)) ⊎ (codec.deserialize bytes ≡ none)

-- What arrives was sent or is no packet, and of the copies that were sent of each packet, one arrives.
abbrev pub IsCarriedOver :
    Bincode → List OutgoingUdpPacket → List (ℕ × IncomingUnparsedPacket) → Type 0
IsCarriedOver codec out l =
    All (λ a. IsSent a.1.bytes out ⊎ IsNoPacket codec a.1.bytes) l
    × All (λ datagram. IsReceived datagram.packet_bytes l) out

sent_arrives :
    (bytes : Bytes) (out : List OutgoingUdpPacket) (l : List (ℕ × IncomingUnparsedPacket))
    → All (λ datagram. IsReceived datagram.packet_bytes l) out
    → IsSent bytes out
    → IsReceived bytes l
sent_arrives bytes out l h sent =
    Any-All (λ datagram. datagram.packet_bytes ≡ bytes)
      (λ datagram. IsReceived datagram.packet_bytes l) (IsReceived bytes l) out
      (λ datagram same received. subst (λ b. IsReceived b l) same received) sent h

-- The list has a packet numbered `i`.
abbrev HasFirst : ℕ → List (ℕ × Packet) → Type 0
HasFirst i l = (pkt : Packet) × (first i (packets l) ≡ some pkt)

keep-HasFirst :
    (i now : ℕ) (message : Option Messages) (l : List (ℕ × Packet))
    → HasFirst i l
    → HasFirst i (keep now message l)
keep-HasFirst i now none l h = h
keep-HasFirst i now (some (packet p)) l (pkt, h) = elim (Bool-cases (p.seq == i)) [
  | inl here ↦ (p, rw here refl)
  | inr other ↦ (pkt, rw other h)
]
keep-HasFirst i now (some (keepalive k)) l h = h

-- Everything in the list is in the numbered list.
abbrev AreNumbered : List Packet → List (ℕ × Packet) → Type 0
AreNumbered all l = All (λ a. first a.1.seq all ≡ some a.1) l

first-AreNumbered :
    (all : List Packet) (i : ℕ) (l : List (ℕ × Packet)) (pkt : Packet)
    → AreNumbered all l
    → first i (packets l) ≡ some pkt
    → first i all ≡ some pkt
first-AreNumbered all i [] pkt h e = absurd cc
first-AreNumbered all i ((now, p) ∷ l) pkt h e = elim (Bool-cases (p.seq == i)) [
  | inl here ↦
      let same : p.seq ≡ i = ground (arith, here) in
      subst (λ j. first j all ≡ some pkt) same (h.0 ∙ rw here at e)
  | inr other ↦ first-AreNumbered all i l pkt h.1 (rw other at e)
]

module _ (codec : Bincode) where
  decoded-HasFirst :
      (bytes : Bytes) (pkt : Packet) (l : List (ℕ × IncomingUnparsedPacket))
      → Carries codec bytes (packet pkt)
      → IsReceived bytes l
      → HasFirst pkt.seq (decoded codec l)
  decoded-HasFirst bytes pkt [] carries h = absurd h
  decoded-HasFirst bytes pkt ((now, raw) ∷ l) carries (inl e) =
      (pkt, rw (subst (λ b. Carries codec b (packet pkt)) (sym e) carries) (ground arith))
  decoded-HasFirst bytes pkt ((now, raw) ∷ l) carries (inr h) =
      keep-HasFirst pkt.seq now (codec.deserialize raw.bytes) (decoded codec l)
        (decoded-HasFirst bytes pkt l carries h)

  module _ (peer_id : ℕ) (connections : List SocketAddr) (messages : List Bytes)
      (out : List OutgoingUdpPacket) (short : length messages < 2 ^ 64)
      (gone : Sent codec peer_id connections 0 messages out) where
    -- What arrives reads back as what was sent.
    decoded-AreNumbered :
        (l : List (ℕ × IncomingUnparsedPacket))
        → All (λ a. IsSent a.1.bytes out ⊎ IsNoPacket codec a.1.bytes) l
        → All (λ a. IsExpected codec peer_id a.1) l
          × AreNumbered (numbered peer_id 0 messages) (decoded codec l)
    decoded-AreNumbered [] h = (tt, tt)
    decoded-AreNumbered ((now, raw) ∷ l) h =
        let (readable, all) = decoded-AreNumbered l h.1 in
        elim h.0 [
          | inl sent ↦
              let (pkt, carries, found) =
                Sent-numbered codec peer_id connections 0 messages out raw.bytes (omega arith) gone
                  sent in
              let (bound, seq, owner) = numbered_lem peer_id 0 pkt.seq messages pkt found in
              ((inl (pkt, carries, owner), readable), rw carries (found, all))
          | inr (inl (k, carries)) ↦ ((inr (inl (k, carries)), readable), rw carries all)
          | inr (inr garbage) ↦ ((inr (inr garbage), readable), rw garbage all)
        ]

    -- What arrives has, of each number, just the packet that was sent.
    arrived_first :
        (socket : SocketAddr) (sockets : List SocketAddr) (l : List (ℕ × IncomingUnparsedPacket))
        → connections ≡ socket ∷ sockets
        → IsCarriedOver codec out l
        → (i : ℕ) → first i (packets (decoded codec l)) ≡ first i (numbered peer_id 0 messages)
    arrived_first socket sockets l some_connection (heard, arrived) i =
        let (readable, all) = decoded-AreNumbered l heard in
        let found = first-AreNumbered (numbered peer_id 0 messages) i (decoded codec l) in
        elim (Option-cases (first i (numbered peer_id 0 messages))) [
          | inl nothing ↦ elim (Option-cases (first i (packets (decoded codec l)))) [
            | inl none_here ↦ none_here ∙ sym nothing
            | inr (pkt, e) ↦ let e' = found pkt all e in absurd cc
          ]
          | inr (pkt, e) ↦
              let (bytes, sent, carries) =
                numbered-Sent codec peer_id connections socket sockets 0 i messages out pkt
                  some_connection (omega arith) gone e in
              let (p, e') =
                decoded-HasFirst bytes pkt l carries (sent_arrives bytes out l arrived sent) in
              let (bound, seq, owner) = numbered_lem peer_id 0 i messages pkt e in
              let here = subst (λ j. first j (packets (decoded codec l)) ≡ some p) seq e' in
              here ∙ sym (found p all here)
        ]

    -- The packets are from the peer, with early numbers.
    decoded_owned :
        (l : List (ℕ × Packet))
        → AreNumbered (numbered peer_id 0 messages) l
        → All IsEarlyArrival l × All (IsFrom peer_id) l
    decoded_owned [] h = (tt, tt)
    decoded_owned ((now, pkt) ∷ l) h =
        let (early, owned) = decoded_owned l h.1 in
        let (bound, seq, owner) = numbered_lem peer_id 0 pkt.seq messages pkt h.0 in
        ((omega arith, early), (owner, owned))

append_cancel {ℓ} : {A : Type ℓ} (xs ys zs : List A) → xs ++ ys ≡ xs ++ zs → ys ≡ zs
append_cancel [] ys zs h = h
append_cancel (x ∷ xs) ys zs h = append_cancel xs ys zs cc

-- A receiver that has made the peer's sequencer and has had no packet of it yet.
abbrev pub IsFresh : ℕ → ℕ → ℕ → ConnectionManager → Type 0
IsFresh peer_id deadline created cm = CanReceive peer_id (Sequencer.new deadline created) cm

-- What the sender was given, the receiver writes.
pub handle_all_udp_in_order :
    (codec : Bincode) (slicer at_receiver : SlicedPacket) (sent_at deadline created peer_id : ℕ)
    (messages : List Bytes) (socket : SocketAddr) (sockets : List SocketAddr)
    (sender after receiver : ConnectionManager) (out : List OutgoingUdpPacket)
    (l : List (ℕ × IncomingUnparsedPacket))
    → IsBincode codec
    → CanSend sent_at sender
    → All IsBytes messages
    → length messages < 2 ^ 64
    → LeadTo slicer sender.traffic_director peer_id messages
    → PeerList.get_peer_tx_counter peer_id sender.peer_list ≡ done 0
    → PeerList.get_peer_connections peer_id sender.peer_list ≡ socket ∷ sockets
    → handle_all_from_local codec slicer messages sender ≡ done after
    → after.udp_output_broadcast_to_remotes ≡ extended out sender.udp_output_broadcast_to_remotes
    → IsCarriedOver codec out l
    → IsFresh sender.own_peer_id deadline created receiver
    → Returns
        (λ end. end.packets_to_local ≡ extended messages receiver.packets_to_local)
        (handle_all_udp codec at_receiver l receiver)
handle_all_udp_in_order codec slicer at_receiver sent_at deadline created peer_id messages socket
      sockets sender after receiver out l law can range short path unsent known ran written carried
      fresh =
    let (after', ran', (out', gone', written')) =
      handle_all_from_local-HaveGone codec slicer law sent_at peer_id messages 0 sender can range
        path unsent in
    let same : out' ≡ out = append_cancel sender.udp_output_broadcast_to_remotes.taken out' out (
      ap (λ sink. sink.taken)
        (sym written'
          ∙ ap (λ cm. cm.udp_output_broadcast_to_remotes)
              (done-injective after' after (sym ran' ∙ ran))
          ∙ written)) in
    let connections = PeerList.get_peer_connections peer_id sender.peer_list in
    let gone : Sent codec sender.own_peer_id connections 0 messages out =
      subst (Sent codec sender.own_peer_id connections 0 messages) same gone' in
    let (readable, all) =
      decoded-AreNumbered codec sender.own_peer_id connections messages out short gone l
        carried.0 in
    let (early, owned) =
      decoded_owned codec sender.own_peer_id connections messages out short gone (decoded codec l)
        all in
    handle_all_udp-decoded codec at_receiver law sender.own_peer_id
      (λ sink. sink ≡ extended messages receiver.packets_to_local) l
      (Sequencer.new deadline created) receiver receiver readable fresh fresh.known refl
      (handle_all_in_order at_receiver sender.own_peer_id deadline created messages
        (decoded codec l) receiver early owned fresh.local fresh.known
        (arrived_first codec sender.own_peer_id connections messages out short gone socket sockets l
          known carried))
