-- ===== src/ConnectionManager/Origin.antt =====
-- Whose messages src/connection_manager.rs sends.
pub mod Run
use Prim.Native.String.{String}
use mpconn.Base.{
  ℕ, ◌≡◌, refl, Bool, true, false, All, All-append, Option, Option-cases, inl, inr, some, none,
  List, [], ◌∷◌, ◌++◌, Fault, Outcome, done, panic, ◌>>=◌, Yields, >>=-Yields, >>=-Yields_always,
  Yields-if, Yields-Returns, Returns, if◌then◌else◌, no_receiver, length,
}
use mpconn.Bincode.{Bincode, IsBincode, serialize_unwrap}
use mpconn.Messages.{
  Bytes, Packet, Keepalive, Messages, packet, keepalive, IncomingUnparsedPacket, OutgoingUdpPacket,
}
use mpconn.Net.{Ipv4Addr, SocketAddr, v4}
use mpconn.PeerList
use mpconn.Sequencer
use mpconn.Sequencer.{Sequencer}
use mpconn.Sequencer.Deliver.{deliver}
use mpconn.Settings.{SettingsFile}
use mpconn.Sink.{Sink, IsOpen, put, put-All}
use mpconn.TrafficDirector.{
  SlicedPacket, DirectorType, layer2, layer3, TrafficPath, broadcast, peer, insert_route,
}
use mpconn.ConnectionManager.State
use mpconn.ConnectionManager.State.{
  ConnectionManager, LogEntry, keepalive_message, send_copies, send_to_remotes, write_interface_log,
  flush, flush_interface_log,
}
use mpconn.ConnectionManager.Incoming.{
  learn_and_forward, store_delivery, handle_incoming_packet, handle_instant_keepalive, announce,
  handle_incoming_keepalive, handle_message, handle_udp_packet,
}
use mpconn.ConnectionManager.Outgoing.{
  path_of, send_to_peer, send_to_peers, follow, handle_packet_from_local,
}
use mpconn.ConnectionManager.Timers.{
  store_expiry, drain_if_late, expire_peer, expire_peers, handle_sequencer_tick,
  handle_maintenance_tick, handle_keepalive,
}
use mpconn.ConnectionManager.Run.{
  Event, new_raw_udp_packet, new_packet_from_local, global_sequencer_tick, maintenance_tick,
  keepalive_tick, step, run,
}

-- The message names its sender by id, and a keepalive also by the tunnel address.
abbrev pub NamesSender : ℕ → Option Ipv4Addr → Messages → Type 0
NamesSender id ip (packet p) = p.peer_id ≡ id
NamesSender id ip (keepalive k) = (k.peer_id ≡ id) × (k.tun_ip ≡ ip)

-- The bytes are those of a message that names its sender so.
abbrev pub IsSigned : Bincode → ℕ → Option Ipv4Addr → Bytes → Type 0
IsSigned codec id ip bytes = (m : Messages) × (codec.serialize m ≡ some bytes) × NamesSender id ip m

serialize_unwrap-Yields :
    (codec : Bincode) (m : Messages)
    → Yields (λ bytes. codec.serialize m ≡ some bytes) (serialize_unwrap codec m)
unfolding serialize_unwrap
serialize_unwrap-Yields codec m = elim (Option-cases (codec.serialize m)) [
  | inl e ↦ rw (e, serialize_unwrap) tt
  | inr (bytes, e) ↦ rw (e, serialize_unwrap) refl
]

module _ (codec : Bincode) (id : ℕ) (ip : Option Ipv4Addr) where
  abbrev pub AreSigned : List OutgoingUdpPacket → Type 0
  AreSigned out = All (λ datagram. IsSigned codec id ip datagram.packet_bytes) out

  -- The manager has this name, and all that it sent bears it.
  pub record Signs (cm : ConnectionManager) : Type 0 where
    pub own_id : cm.own_peer_id ≡ id
    pub own_ip : cm.own_tun_ip ≡ ip
    pub signed : AreSigned cm.udp_output_broadcast_to_remotes.taken

  send_copies-Yields :
      (sockets : List SocketAddr) (bytes : Bytes) (out : Sink OutgoingUdpPacket)
      → IsSigned codec id ip bytes
      → AreSigned out.taken
      → Yields (λ after. AreSigned after.taken) (send_copies sockets bytes out)
  unfolding send_copies
  send_copies-Yields [] bytes out h s = s
  send_copies-Yields (socket ∷ sockets) bytes out h s =
      let datagram : OutgoingUdpPacket = record { destination = socket; packet_bytes = bytes } in
      >>=-Yields (λ after. AreSigned after.taken) (λ after. AreSigned after.taken)
        (put no_receiver datagram out) (send_copies sockets bytes)
        (put-All (λ d. IsSigned codec id ip d.packet_bytes) no_receiver datagram out h s)
        (λ after. send_copies-Yields sockets bytes after h)

  send_to_remotes-Signs :
      (sockets : List SocketAddr) (bytes : Bytes) (cm : ConnectionManager)
      → IsSigned codec id ip bytes
      → Signs cm
      → Yields Signs (send_to_remotes sockets bytes cm)
  unfolding send_to_remotes
  send_to_remotes-Signs sockets bytes cm h s =
      >>=-Yields _ Signs (send_copies sockets bytes cm.udp_output_broadcast_to_remotes) _
        (send_copies-Yields sockets bytes cm.udp_output_broadcast_to_remotes h s.signed)
        (λ out signed. record { own_id = s.own_id; own_ip = s.own_ip; signed = signed })

  -- A message is made, serialized and sent to some sockets.
  serialize-Signs :
      (m : Messages) (sockets : List SocketAddr) (cm : ConnectionManager)
      → NamesSender id ip m
      → Signs cm
      → Yields Signs (serialize_unwrap codec m >>= λ bytes. send_to_remotes sockets bytes cm)
  serialize-Signs m sockets cm h s =
      >>=-Yields _ Signs (serialize_unwrap codec m) _ (serialize_unwrap-Yields codec m)
        (λ bytes e. send_to_remotes-Signs sockets bytes cm (m, e, h) s)

  send_to_peer-Signs :
      (bytes : Bytes) (peer_id : ℕ) (cm : ConnectionManager)
      → Signs cm
      → Yields Signs (send_to_peer codec bytes peer_id cm)
  unfolding send_to_peer
  send_to_peer-Signs bytes peer_id cm s =
      >>=-Yields_always Signs (PeerList.get_peer_tx_counter peer_id cm.peer_list) _ (λ tx_counter.
        serialize-Signs
          (packet (record { seq = tx_counter; peer_id = cm.own_peer_id; bytes = bytes }))
          (PeerList.get_peer_connections peer_id
            (PeerList.increment_peer_tx_counter peer_id cm.peer_list))
          (record cm { peer_list = PeerList.increment_peer_tx_counter peer_id cm.peer_list })
          s.own_id (record { own_id = s.own_id; own_ip = s.own_ip; signed = s.signed }))

  send_to_peers-Signs :
      (bytes : Bytes) (peer_ids : List ℕ) (cm : ConnectionManager)
      → Signs cm
      → Yields Signs (send_to_peers codec bytes peer_ids cm)
  unfolding send_to_peers
  send_to_peers-Signs bytes [] cm s = s
  send_to_peers-Signs bytes (peer_id ∷ peer_ids) cm s =
      >>=-Yields Signs Signs (send_to_peer codec bytes peer_id cm)
        (send_to_peers codec bytes peer_ids) (send_to_peer-Signs bytes peer_id cm s)
        (λ after. send_to_peers-Signs bytes peer_ids after)

  pub follow-Signs :
      (bytes : Bytes) (path : Option TrafficPath) (cm : ConnectionManager)
      → Signs cm
      → Yields Signs (follow codec bytes path cm)
  unfolding follow
  follow-Signs bytes none cm s = s
  follow-Signs bytes (some broadcast) cm s = send_to_peers-Signs bytes _ cm s
  follow-Signs bytes (some (peer peer_id)) cm s = send_to_peer-Signs bytes peer_id cm s

  handle_instant_keepalive-Signs :
      (target_peer_id : ℕ) (cm : ConnectionManager)
      → Signs cm
      → Yields Signs (handle_instant_keepalive codec target_peer_id cm)
  unfolding handle_instant_keepalive
  handle_instant_keepalive-Signs target_peer_id cm s =
      serialize-Signs (keepalive (keepalive_message cm)) _ cm (s.own_id, s.own_ip) s

  pub handle_keepalive-Signs :
      (cm : ConnectionManager) → Signs cm → Yields Signs (handle_keepalive codec cm)
  unfolding handle_keepalive
  handle_keepalive-Signs cm s =
      serialize-Signs (keepalive (keepalive_message cm)) _ cm (s.own_id, s.own_ip) s

  pub announce-Signs :
      (k : Keepalive) (td : DirectorType) (cm : ConnectionManager)
      → Signs cm
      → Yields Signs (announce codec k td cm)
  unfolding announce
  announce-Signs k (layer2 td) cm s = s
  announce-Signs k (layer3 td) cm s = elim (Option-cases k.tun_ip) [
    | inl e ↦ rw (e, announce) s
    | inr (tun_ip, e) ↦
        let route = insert_route k.peer_id (v4 tun_ip) td in
        let kept : Signs (record cm { traffic_director = layer3 route.0 }) = record {
          own_id = s.own_id;
          own_ip = s.own_ip;
          signed = s.signed;
        } in
        rw (e, announce)
          (Yields-if Signs route.1 _ _ (handle_instant_keepalive-Signs k.peer_id _ kept) kept)
  ]

  pub handle_incoming_packet-Signs :
      (slicer : SlicedPacket) (now : ℕ) (pkt : Packet) (cm : ConnectionManager)
      → Signs cm
      → Yields Signs (handle_incoming_packet slicer now pkt cm)
  unfolding handle_incoming_packet
  handle_incoming_packet-Signs slicer now pkt cm s =
      elim (Option-cases (PeerList.get_peer_sequencer pkt.peer_id cm.peer_list)) [
        | inl unknown ↦ rw (unknown, handle_incoming_packet) s
        | inr (sequencer, known) ↦
            rw (known, handle_incoming_packet)
              (>>=-Yields_always Signs (deliver _ now (learn_and_forward slicer) _ _)
                (store_delivery pkt.peer_id cm)
                (λ r. record { own_id = s.own_id; own_ip = s.own_ip; signed = s.signed }))
      ]

  pub write_interface_log-Signs :
      (now : ℕ) (receiver_interface : String) (seq : ℕ) (cm : ConnectionManager)
      → Signs cm
      → Yields Signs (write_interface_log now receiver_interface seq cm)
  unfolding write_interface_log
  write_interface_log-Signs now receiver_interface seq cm s =
      elim (Option-cases cm.interface_logger) [
        | inl e ↦ rw (e, write_interface_log) s
        | inr (if_log, e) ↦
            rw (e, write_interface_log)
              (>>=-Yields_always Signs (put _ _ if_log) _
                (λ log. record { own_id = s.own_id; own_ip = s.own_ip; signed = s.signed }))
      ]
