-- ===== src/ConnectionManager/Sends.antt =====
-- What src/connection_manager.rs sends to the remotes.
use mpconn.Base.{
  ap, sym, ℕ, ◌<◌, ◌^◌, ◌≡◌, Option-cases, inl, inr, some, List, [], ◌∷◌, map, arith, ℕ_discrete,
  done, no_receiver, refl, Returns,
}
use mpconn.Base.HashMap
use mpconn.Base.HashMap.{get-update, get-AllEntries, keys, values}
use mpconn.Bincode.{Bincode, IsBincode, IsBytes, IsTunIp, serialize_unwrap_total}
use mpconn.Messages.{Bytes, Packet, Messages, packet, keepalive, OutgoingUdpPacket}
use mpconn.Net.{SocketAddr}
use mpconn.PeerList
use mpconn.PeerList.{PeerList, Peer, increment_tx_counter}
use mpconn.PeerList.Addresses.{ArePeers, AreAddresses, get_all_connections-AreAddresses}
use mpconn.PeerList.Validity.{IsPeer, IsValid}
use mpconn.Sink.{Sink, IsOpen, extended, put-extended, extended-nil, extended-extended}
use mpconn.ConnectionManager.State.{
  ConnectionManager, keepalive_message, send_copies, send_to_remotes,
}
use mpconn.ConnectionManager.Outgoing.{send_to_peer}
use mpconn.ConnectionManager.Timers.{handle_keepalive}

-- One datagram for each socket, all with the same bytes.
abbrev pub copies : List SocketAddr → Bytes → List OutgoingUdpPacket
copies sockets bytes = map (λ socket. record { destination = socket; packet_bytes = bytes }) sockets

send_copies-extended :
    (sockets : List SocketAddr) (bytes : Bytes) (out : Sink OutgoingUdpPacket)
    → IsOpen out
    → send_copies sockets bytes out ≡ done (extended (copies sockets bytes) out)
unfolding send_copies
send_copies-extended [] bytes out h = ap done (sym (extended-nil out))
send_copies-extended (socket ∷ sockets) bytes out h =
    rw (put-extended no_receiver _ out h, send_copies-extended sockets bytes)
      (ap done (extended-extended _ (copies sockets bytes) out))

-- The state after some datagrams went out.
abbrev pub sent : List OutgoingUdpPacket → ConnectionManager → ConnectionManager
sent datagrams cm = record cm {
  udp_output_broadcast_to_remotes = extended datagrams cm.udp_output_broadcast_to_remotes;
}

pub send_to_remotes-sent :
    (sockets : List SocketAddr) (bytes : Bytes) (cm : ConnectionManager)
    → IsOpen cm.udp_output_broadcast_to_remotes
    → send_to_remotes sockets bytes cm ≡ done (sent (copies sockets bytes) cm)
unfolding send_to_remotes
send_to_remotes-sent sockets bytes cm h =
    rw (send_copies-extended sockets bytes cm.udp_output_broadcast_to_remotes h)

pub get_peer_connections-increment :
    (i j : ℕ) (list : PeerList)
    → PeerList.get_peer_connections j (PeerList.increment_peer_tx_counter i list)
      ≡ PeerList.get_peer_connections j list
unfolding PeerList.get_peer_connections PeerList.increment_peer_tx_counter increment_tx_counter
get_peer_connections-increment i j list =
    ground (arith, get-update ℕ_discrete i j increment_tx_counter list.peers)

-- A counter that can be read is a `u64`.
get_peer_tx_counter-lt :
    (peer_id now counter : ℕ) (list : PeerList)
    → IsValid now list
    → PeerList.get_peer_tx_counter peer_id list ≡ done counter
    → counter < 2 ^ 64
unfolding PeerList.get_peer_tx_counter
get_peer_tx_counter-lt peer_id now counter list v h =
    elim (Option-cases (HashMap.get ℕ_discrete peer_id list.peers)) [
      | inl e ↦ absurd (ground (arith, e, h))
      | inr (p, e) ↦
          let valid = get-AllEntries ℕ_discrete (IsPeer now) peer_id p list.peers v.peers e in
          ground (arith, e, h, valid.counter)
    ]

-- The state after one packet went to a peer.
abbrev pub after_send : Bytes → ℕ → ConnectionManager → ConnectionManager
after_send serialized peer_id cm =
    sent (copies (PeerList.get_peer_connections peer_id cm.peer_list) serialized)
      (record cm { peer_list = PeerList.increment_peer_tx_counter peer_id cm.peer_list })

-- The bytes read back as the packet.
abbrev pub Carries : Bincode → Bytes → Messages → Type 0
Carries codec serialized message = codec.deserialize serialized ≡ some message

-- What every sender needs: channels that take what they get, and values of the Rust types.
pub record CanSend (now : ℕ) (cm : ConnectionManager) : Type 0 where
  pub remotes : IsOpen cm.udp_output_broadcast_to_remotes
  pub list : IsValid now cm.peer_list
  pub own_id : cm.own_peer_id < 2 ^ 16

module _ (codec : Bincode) (law : IsBincode codec) (now : ℕ) where
  -- To a known peer, `send_to_peer` sends one datagram for each connection of the peer. All carry the
  -- packet numbered by the peer's counter, which goes up by one; nothing else changes.
  pub send_to_peer-after_send :
      (bytes : Bytes) (peer_id counter : ℕ) (cm : ConnectionManager)
      → CanSend now cm
      → IsBytes bytes
      → PeerList.get_peer_tx_counter peer_id cm.peer_list ≡ done counter
      → (serialized : Bytes) × Carries codec serialized
          (packet (record { seq = counter; peer_id = cm.own_peer_id; bytes = bytes }))
        × (send_to_peer codec bytes peer_id cm ≡ done (after_send serialized peer_id cm))
  unfolding send_to_peer
  send_to_peer-after_send bytes peer_id counter cm can range h =
      let pkt : Packet = record { seq = counter; peer_id = cm.own_peer_id; bytes = bytes } in
      let (serialized, eq, carries) =
        serialize_unwrap_total codec (packet pkt) law
          (get_peer_tx_counter-lt peer_id now counter cm.peer_list can.list h, can.own_id, range) in
      (
        serialized,
        carries,
        rw (h, eq, get_peer_connections-increment peer_id peer_id cm.peer_list)
            (send_to_remotes-sent _ serialized _ can.remotes),
      )

-- The state after each known peer was sent one datagram for each of its connections, all with the same bytes.
abbrev pub IsRound : Bytes → ConnectionManager → ConnectionManager → Type 0
IsRound bytes cm after =
    (ids : List ℕ) × (addresses : List SocketAddr) × ArePeers cm.peer_list ids
    × AreAddresses cm.peer_list ids addresses
    × (sent (copies addresses bytes) cm ≡ after)

-- The keepalive timer sends, peer after peer, one datagram to each address among the connections of each
-- known peer, and no other datagram. All carry this program's id and tunnel address; nothing else
-- changes. The channel to the remotes takes them, the state is valid, the id and the tunnel address have
-- their Rust types, and bincode is as documented.
pub handle_keepalive-sent :
    (codec : Bincode) (now : ℕ) (cm : ConnectionManager)
    → IsBincode codec
    → CanSend now cm
    → IsTunIp cm.own_tun_ip
    → (serialized : Bytes) × Carries codec serialized
        (keepalive (record { peer_id = cm.own_peer_id; tun_ip = cm.own_tun_ip }))
      × Returns (IsRound serialized cm) (handle_keepalive codec cm)
unfolding handle_keepalive
handle_keepalive-sent codec now cm law can own_ip =
    let (serialized, eq, carries) =
      serialize_unwrap_total codec (keepalive (keepalive_message cm)) law (can.own_id, own_ip) in
    let (ids, peers, addresses) = get_all_connections-AreAddresses now cm.peer_list can.list in
    let all = PeerList.get_all_connections cm.peer_list in
    let sends = send_to_remotes-sent all serialized cm can.remotes in
    (serialized, carries, rw (eq, sends) (ids, all, peers, addresses, refl))
