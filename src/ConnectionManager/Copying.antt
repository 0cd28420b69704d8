-- ===== src/ConnectionManager/Copying.antt =====
-- The datagrams that src/connection_manager.rs sends for a run of packets, and what they carry.
use mathlib.Core.Option.{some-injective}
use mpconn.Base.{
  ℕ, ◌+◌, ◌<◌, ◌%◌, ◌^◌, ◌==◌, ◌≡◌, inl, inr, refl, sym, subst, Bool-cases, some, List, Any,
  Any-append, Any-append_right, [], ◌∷◌, ◌++◌, length, arith,
}
use mpconn.Bincode.{Bincode}
use mpconn.Messages.{Bytes, Packet, packet, OutgoingUdpPacket}
use mpconn.Net.{SocketAddr}
use mpconn.Sequencer.Stream.{first}
use mpconn.ConnectionManager.Numbering.{AreSent}
use mpconn.ConnectionManager.Reliability.{numbered, first-numbered}
use mpconn.ConnectionManager.Sends.{Carries, copies}

-- Some datagram of the list has these bytes.
abbrev pub IsSent : Bytes → List OutgoingUdpPacket → Type 0
IsSent bytes out = Any (λ datagram. datagram.packet_bytes ≡ bytes) out

IsSent-copies :
    (bytes serialized : Bytes) (sockets : List SocketAddr)
    → IsSent bytes (copies sockets serialized)
    → serialized ≡ bytes
IsSent-copies bytes serialized [] h = absurd h
IsSent-copies bytes serialized (socket ∷ sockets) (inl e) = e
IsSent-copies bytes serialized (socket ∷ sockets) (inr h) = IsSent-copies bytes serialized sockets h

-- A packet of a numbered list has a number from its range, and its owner.
pub numbered_lem :
    (peer_id n i : ℕ) (messages : List Bytes) (pkt : Packet)
    → first i (numbered peer_id n messages) ≡ some pkt
    → (i < n + length messages) × (pkt.seq ≡ i) × (pkt.peer_id ≡ peer_id)
numbered_lem peer_id n i [] pkt h = cc
numbered_lem peer_id n i (bytes ∷ messages) pkt h =
    ground (arith, numbered_lem peer_id (n + 1) i messages pkt)

-- Once the first packet is past, its number does not come again.
first_after :
    (peer_id n : ℕ) (bytes : Bytes) (messages : List Bytes) (pkt : Packet)
    → first pkt.seq (numbered peer_id (n + 1) messages) ≡ some pkt
    → first pkt.seq (numbered peer_id n (bytes ∷ messages)) ≡ some pkt
first_after peer_id n bytes messages pkt h =
    ground (arith, h, first-numbered peer_id (n + 1) pkt.seq messages)

module _ (codec : Bincode) (peer_id : ℕ) (connections : List SocketAddr) where
  abbrev pub Sent : ℕ → List Bytes → List OutgoingUdpPacket → Type 0
  Sent n messages out = AreSent codec peer_id connections n messages out

  next-Sent :
      (n : ℕ) (messages : List Bytes) (out : List OutgoingUdpPacket)
      → n + 1 < 2 ^ 64
      → Sent ((n + 1) % 2 ^ 64) messages out
      → Sent (n + 1) messages out
  next-Sent n messages out h = subst (λ m. Sent m messages out) (omega arith)

  -- Every datagram carries one of the packets.
  pub Sent-numbered :
      (n : ℕ) (messages : List Bytes) (out : List OutgoingUdpPacket) (bytes : Bytes)
      → n + length messages < 2 ^ 64
      → Sent n messages out
      → IsSent bytes out
      → (pkt : Packet) × Carries codec bytes (packet pkt)
        × (first pkt.seq (numbered peer_id n messages) ≡ some pkt)
  Sent-numbered n [] out bytes h gone sent = absurd (subst (IsSent bytes) gone sent)
  Sent-numbered n (m ∷ messages) out bytes h (serialized, rest, carries, split, gone) sent =
      elim (Any-append (λ d. d.packet_bytes ≡ bytes) (copies connections serialized) rest
        (subst (IsSent bytes) split sent)) [
          | inl here ↦ (
            record { seq = n; peer_id = peer_id; bytes = m },
            subst (λ b. Carries codec b (packet (record { seq = n; peer_id = peer_id; bytes = m })))
                (IsSent-copies bytes serialized connections here) carries,
            ground arith,
          )
          | inr later ↦
              let (pkt, read, found) =
                Sent-numbered (n + 1) messages rest bytes (omega arith)
                  (next-Sent n messages rest (omega arith) gone) later in
              (pkt, read, first_after peer_id n m messages pkt found)
        ]

  -- Every packet is carried by a datagram, if there is a connection.
  pub numbered-Sent :
      (socket : SocketAddr) (sockets : List SocketAddr) (n i : ℕ) (messages : List Bytes)
      (out : List OutgoingUdpPacket) (pkt : Packet)
      → connections ≡ socket ∷ sockets
      → n + length messages < 2 ^ 64
      → Sent n messages out
      → first i (numbered peer_id n messages) ≡ some pkt
      → (bytes : Bytes) × IsSent bytes out × Carries codec bytes (packet pkt)
  numbered-Sent socket sockets n i [] out pkt some_connection h gone found = cc
  numbered-Sent socket sockets n i (m ∷ messages) out pkt some_connection h
        (serialized, rest, carries, split, gone) found =
      elim (Bool-cases (n == i)) [
        | inl here ↦
            let is =
              some-injective (record { seq = n; peer_id = peer_id; bytes = m }) pkt
                (rw here at found) in
            (
              serialized,
              subst (IsSent serialized) (sym split) (
                  subst (λ sockets. IsSent serialized (copies sockets serialized ++ rest))
                    (sym some_connection) (inl refl)),
              subst (λ p. Carries codec serialized (packet p)) is carries,
            )
        | inr later ↦
            let (bytes, sent, read) =
              numbered-Sent socket sockets (n + 1) i messages rest pkt some_connection (omega arith)
                (next-Sent n messages rest (omega arith) gone) (rw later at found) in
            (
              bytes,
              subst (IsSent bytes) (sym split) (
                  Any-append_right (λ d. d.packet_bytes ≡ bytes) (copies connections serialized)
                    rest sent),
              read,
            )
      ]
