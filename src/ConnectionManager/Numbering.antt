-- ===== src/ConnectionManager/Numbering.antt =====
-- A run of packets that src/connection_manager.rs sends to one peer.
use mpconn.Base.{
  ℕ, ◌+◌, ◌%◌, ◌^◌, ◌≡◌, refl, ap, sym, subst, ◌∙◌, All, ℕ_discrete, ite, if_pos, some, List, [],
  ◌∷◌, ◌++◌, Outcome, done, ◌>>=◌,
}
use mpconn.Bincode.{Bincode, IsBincode, IsBytes}
use mpconn.Messages.{Bytes, packet, OutgoingUdpPacket}
use mpconn.Net.{SocketAddr}
use mpconn.PeerList
use mpconn.PeerList.{PeerList}
use mpconn.PeerList.Counters.{get_peer_tx_counter-increment}
use mpconn.PeerList.Validity
use mpconn.Sink.{extended, extended-nil, extended-extended}
use mpconn.TrafficDirector.{SlicedPacket, DirectorType, peer}
use mpconn.ConnectionManager.State.{ConnectionManager}
use mpconn.ConnectionManager.Outgoing.{follow, path_of, handle_packet_from_local}
use mpconn.ConnectionManager.Sends.{
  CanSend, Carries, after_send, copies, get_peer_connections-increment, send_to_peer-after_send,
}

-- Datagrams that carry some packets, the first of them numbered `counter`, with a copy of each for every
-- connection.
abbrev pub AreSent :
    Bincode → ℕ → List SocketAddr → ℕ → List Bytes → List OutgoingUdpPacket → Type 0
AreSent codec own_id connections counter [] out = out ≡ []
AreSent codec own_id connections counter (bytes ∷ messages) out =
    (serialized : Bytes) × (rest : List OutgoingUdpPacket) × Carries codec serialized
      (packet (record { seq = counter; peer_id = own_id; bytes = bytes }))
    × (out ≡ copies connections serialized ++ rest)
    × AreSent codec own_id connections ((counter + 1) % 2 ^ 64) messages rest

-- All go to the peer.
abbrev pub LeadTo : SlicedPacket → DirectorType → ℕ → List Bytes → Type 0
LeadTo slicer td peer_id messages =
    All (λ bytes. path_of slicer bytes td ≡ some (peer peer_id)) messages

get_peer_tx_counter_next :
    (peer_id counter : ℕ) (list : PeerList)
    → PeerList.get_peer_tx_counter peer_id list ≡ done counter
    → PeerList.get_peer_tx_counter peer_id (PeerList.increment_peer_tx_counter peer_id list)
      ≡ done ((counter + 1) % 2 ^ 64)
get_peer_tx_counter_next peer_id counter list h =
    get_peer_tx_counter-increment peer_id peer_id list
    ∙ ap (λ m. m >>= λ c. done (ite (ℕ_discrete peer_id peer_id) ((c + 1) % 2 ^ 64) c)) h
    ∙ ap done (if_pos (ℕ_discrete peer_id peer_id) refl ((counter + 1) % 2 ^ 64) counter)

module _ (codec : Bincode) (slicer : SlicedPacket) where
  -- The handler run on packets of the local interface.
  unfoldable pub handle_all_from_local : List Bytes → ConnectionManager → Outcome ConnectionManager
  handle_all_from_local [] cm = done cm
  handle_all_from_local (bytes ∷ messages) cm =
      handle_packet_from_local codec slicer bytes cm >>= handle_all_from_local messages

  -- A datagram list `out` went to the remotes, as `AreSent` says.
  abbrev pub HaveGone : ℕ → ℕ → List Bytes → ConnectionManager → ConnectionManager → Type 0
  HaveGone peer_id counter messages cm after =
      (out : List OutgoingUdpPacket) × AreSent codec cm.own_peer_id
        (PeerList.get_peer_connections peer_id cm.peer_list) counter messages out
      × (after.udp_output_broadcast_to_remotes ≡ extended out cm.udp_output_broadcast_to_remotes)

  module _ (law : IsBincode codec) (now : ℕ) (peer_id : ℕ) where
    -- Packets of the local interface that all go to one peer are numbered one after the other from the
    -- peer's counter on, as a `u64`. Each is sent in one copy for every connection of the peer.
    pub handle_all_from_local-HaveGone :
        (messages : List Bytes) (counter : ℕ) (cm : ConnectionManager)
        → CanSend now cm
        → All IsBytes messages
        → LeadTo slicer cm.traffic_director peer_id messages
        → PeerList.get_peer_tx_counter peer_id cm.peer_list ≡ done counter
        → (after : ConnectionManager) × (handle_all_from_local messages cm ≡ done after)
          × HaveGone peer_id counter messages cm after
    unfolding handle_all_from_local handle_packet_from_local follow
    handle_all_from_local-HaveGone [] counter cm can range path read =
        (cm, refl, ([], refl, sym (extended-nil cm.udp_output_broadcast_to_remotes)))
    handle_all_from_local-HaveGone (bytes ∷ messages) counter cm can range path read =
        let (serialized, carries, eq) =
          send_to_peer-after_send codec law now bytes peer_id counter cm can range.0 read in
        let next : ConnectionManager = after_send serialized peer_id cm in
        let can' : CanSend now next = record {
          remotes = can.remotes;
          list = Validity.increment_peer_tx_counter-IsValid peer_id now cm.peer_list can.list;
          own_id = can.own_id;
        } in
        let (after, ran, (rest, gone, written)) =
          handle_all_from_local-HaveGone messages ((counter + 1) % 2 ^ 64) next can' range.1 path.1
            (get_peer_tx_counter_next peer_id counter cm.peer_list read) in
        let first = copies (PeerList.get_peer_connections peer_id cm.peer_list) serialized in
        (
          after,
          ap (λ m. m >>= handle_all_from_local messages)
                (ap (λ p. follow codec bytes p cm) path.0 ∙ eq)
              ∙ ran,
          (
            first ++ rest,
            (
              serialized,
              rest,
              carries,
              refl,
              subst
                  (λ connections.
                    AreSent codec cm.own_peer_id connections ((counter + 1) % 2 ^ 64) messages rest)
                  (get_peer_connections-increment peer_id peer_id cm.peer_list) gone,
            ),
            written ∙ extended-extended first rest cm.udp_output_broadcast_to_remotes,
          ),
        )
