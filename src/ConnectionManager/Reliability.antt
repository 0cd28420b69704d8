-- ===== src/ConnectionManager/Reliability.antt =====
-- The messages of one peer in src/connection_manager.rs, when each arrives at least once.
use mpconn.Base.{
  ℕ, ◌+◌, ◌<◌, ◌≤◌, ◌≡◌, refl, ap, subst, ◌∙◌, All, length, some, none, List, [], ◌∷◌, arith,
  Returns, Returns-mono,
}
use mathlib.Core.Path.{ap₂}
use mpconn.Messages.{Bytes, Packet}
use mpconn.PeerList
use mpconn.Sequencer
use mpconn.Sequencer.Reordering.{packets}
use mpconn.Sequencer.Stream.{first, IsStream, IsEarlyArrival}
use mpconn.Sink.{IsOpen, extended}
use mpconn.TrafficDirector.{SlicedPacket}
use mpconn.ConnectionManager.State.{ConnectionManager}
use mpconn.ConnectionManager.Receives.{payloads}
use mpconn.ConnectionManager.Streams.{IsFrom, IsDelivered, handle_all, handle_all-IsDelivered}

-- The packets that carry some messages, numbered from `n` on.
abbrev pub numbered : ℕ → ℕ → List Bytes → List Packet
numbered peer_id n [] = []
numbered peer_id n (bytes ∷ messages) =
    record { seq = n; peer_id = peer_id; bytes = bytes } ∷ numbered peer_id (n + 1) messages

payloads-numbered :
    (peer_id n : ℕ) (messages : List Bytes) → payloads (numbered peer_id n messages) ≡ messages
payloads-numbered peer_id n [] = refl
payloads-numbered peer_id n (bytes ∷ messages) =
    ap (λ rest. bytes ∷ rest) (payloads-numbered peer_id (n + 1) messages)

pub first-numbered :
    (peer_id n i : ℕ) (messages : List Bytes) → i < n → first i (numbered peer_id n messages) ≡ none
first-numbered peer_id n i [] h = refl
first-numbered peer_id n i (bytes ∷ messages) h =
    ground (arith, first-numbered peer_id (n + 1) i messages)

-- What was sent is all that a stream can be.
stream_is_sent :
    (peer_id n : ℕ) (messages : List Bytes) (pkts out : List Packet)
    → IsStream pkts n out
    → first (n + length out) pkts ≡ none
    → ((i : ℕ) → n ≤ i → first i pkts ≡ first i (numbered peer_id n messages))
    → out ≡ numbered peer_id n messages
stream_is_sent peer_id n [] pkts [] h e agree = refl
stream_is_sent peer_id n [] pkts (p ∷ out) h e agree =
    absurd (ground (arith, agree n (omega arith), h.0))
stream_is_sent peer_id n (bytes ∷ messages) pkts [] h e agree =
    let lost : first n pkts ≡ none = subst (λ m. first m pkts ≡ none) (omega arith) e in
    absurd (ground (arith, agree n (omega arith), lost))
stream_is_sent peer_id n (bytes ∷ messages) pkts (p ∷ out) h e agree =
    ap₂ (λ x xs. x ∷ xs) (ground (arith, agree n (omega arith), h.0))
      (stream_is_sent peer_id (n + 1) messages pkts out h.1
        (subst (λ m. first m pkts ≡ none) (omega arith) e)
        (λ i later. ground (arith, agree i (omega arith))))

-- A peer with a new sequencer sent some messages, numbered from 0 on. When its packets arrive in
-- whatever order and in however many copies, each at least once, with numbers below the last `u64`,
-- the local interface is given exactly the messages, in the order in which they were sent.
pub handle_all_in_order :
    (slicer : SlicedPacket) (peer_id deadline created : ℕ) (messages : List Bytes)
    (l : List (ℕ × Packet)) (cm : ConnectionManager)
    → All IsEarlyArrival l
    → All (IsFrom peer_id) l
    → IsOpen cm.packets_to_local
    → PeerList.get_peer_sequencer peer_id cm.peer_list ≡ some (Sequencer.new deadline created)
    → ((i : ℕ) → first i (packets l) ≡ first i (numbered peer_id 0 messages))
    → Returns
        (λ after. after.packets_to_local ≡ extended messages cm.packets_to_local)
        (handle_all slicer l cm)
handle_all_in_order slicer peer_id deadline created messages l cm early owned local known arrive =
    Returns-mono (IsDelivered slicer l cm)
      (λ after. after.packets_to_local ≡ extended messages cm.packets_to_local) _
      (handle_all-IsDelivered slicer peer_id deadline created l cm early owned local known)
      (λ after (out, written, stream, end).
        let all =
          stream_is_sent peer_id 0 messages (packets l) out stream
            (subst (λ m. first m (packets l) ≡ none) (omega arith) end) (λ i _. arrive i) in
        written
        ∙ ap (λ items. extended items cm.packets_to_local)
            (ap payloads all ∙ payloads-numbered peer_id 0 messages))
