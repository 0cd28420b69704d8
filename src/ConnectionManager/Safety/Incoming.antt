-- ===== src/ConnectionManager/Safety/Incoming.antt =====
-- What a remote receives, in src/connection_manager.rs, and the invariant.
use mpconn.PeerList
use mpconn.PeerList.{PeerList}
use mpconn.ConnectionManager.State.{ConnectionManager, keepalive_message, write_interface_log}
use mpconn.ConnectionManager.Sends.{send_to_remotes-sent}
use mpconn.ConnectionManager.Safety.{
  IsSafe, IsRouted, IsLogging, with_list, sent-IsSafe, IsRouted-mono,
}
use mpconn.Bincode.{Bincode, IsBincode, IsMessage, serialize_unwrap_total}
use mpconn.Messages.{Bytes, Packet, Keepalive, Messages, packet, keepalive, IncomingUnparsedPacket}
use mpconn.Base.{
  ℕ, ◌<◌, ◌^◌, ◌≡◌, refl, subst, Option-cases, Bool-cases, inl, inr, length, Returns, >>=-Returns,
  no_receiver, io_failure,
}
use mpconn.PeerList.Counters.{
  IsKnown, add_peer-IsKnown, add_peer-IsKnown_self, set_peer_sequencer-IsKnown,
  get_peer_sequencer-IsKnown,
}
use mpconn.PeerList.Validity
use mpconn.PeerList.Validity.{IsPeerSequencer}
use mpconn.PeerList.Delivery.{
  deliver-Returns, insert_packet-IsPeerSequencer, get_peer_sequencer-IsPeerSequencer,
}
use mpconn.Sequencer
use mpconn.Sequencer.Deliver.{deliver}
use mpconn.Sequencer.{Sequencer}
use mpconn.Sink.{Sink, IsOpen, put-extended}
use mpconn.TrafficDirector.{SlicedPacket, DirectorType, layer2, layer3}
use mpconn.Net.{SocketAddr, v4}
use mpconn.TrafficDirector.{insert_route}
use mpconn.TrafficDirector.Learning.{learn_path-AllEntries}
use mpconn.TrafficDirector.Routing.{insert_route-AllEntries}
use mpconn.ConnectionManager.Incoming.{
  learn, learn_and_forward, store_delivery, handle_incoming_packet, handle_instant_keepalive,
  announce, handle_incoming_keepalive, handle_message, handle_udp_packet,
}

-- A state whose director changed.
with_director :
    (now : ℕ) (td : DirectorType) (cm : ConnectionManager)
    → IsRouted cm.peer_list td
    → IsSafe now cm
    → IsSafe now (record cm { traffic_director = td })
with_director now td cm r s = record {
  list = s.list;
  routed = r;
  remotes = s.remotes;
  local = s.local;
  logging = s.logging;
  own_id = s.own_id;
  own_ip = s.own_ip;
}

learn-IsRouted :
    (slicer : SlicedPacket) (pkt : Packet) (list : PeerList) (td : DirectorType)
    → IsKnown pkt.peer_id list
    → IsRouted list td
    → IsRouted list (learn slicer pkt td)
unfolding learn
learn-IsRouted slicer pkt list (layer2 td) known r =
    learn_path-AllEntries slicer pkt.peer_id pkt.bytes td _ (λ _. known) r
learn-IsRouted slicer pkt list (layer3 td) known r = r

write_interface_log-IsSafe :
    (now seq : ℕ) (raw : IncomingUnparsedPacket) (cm : ConnectionManager)
    → IsSafe now cm
    → Returns (IsSafe now) (write_interface_log now raw.receiver_interface seq cm)
unfolding write_interface_log
write_interface_log-IsSafe now seq raw cm s = elim (Option-cases cm.interface_logger) [
  | inl off ↦ rw (off, write_interface_log) s
  | inr (if_log, on) ↦
      let open_log : IsOpen if_log = subst IsLogging on s.logging in
      rw (on, write_interface_log, put-extended io_failure _ if_log open_log)
        (record {
          list = s.list;
          routed = s.routed;
          remotes = s.remotes;
          local = s.local;
          logging = open_log;
          own_id = s.own_id;
          own_ip = s.own_ip;
        })
]

-- What the loop over a peer's packets keeps of the director and the local interface.
abbrev IsReady : PeerList → DirectorType × Sink Bytes → Type 0
IsReady list (td, to_local) = IsRouted list td × IsOpen to_local

learn_and_forward-IsReady :
    (slicer : SlicedPacket) (list : PeerList) (peer_id : ℕ) (pkt : Packet)
    (st : DirectorType × Sink Bytes)
    → IsKnown peer_id list
    → pkt.peer_id ≡ peer_id
    → IsReady list st
    → Returns (IsReady list) (learn_and_forward slicer pkt st)
unfolding learn_and_forward
learn_and_forward-IsReady slicer list peer_id pkt (td, to_local) known owner r =
    rw (put-extended no_receiver pkt.bytes to_local r.1)
      (learn-IsRouted slicer pkt list td (rw owner known) r.0, r.1)

-- What the loop leaves.
abbrev IsDelivered : ℕ → ℕ → PeerList → Sequencer × (DirectorType × Sink Bytes) → Type 0
IsDelivered now peer_id list (s, st) = IsPeerSequencer now peer_id s × IsReady list st

store_delivery-IsSafe :
    (now peer_id : ℕ) (cm : ConnectionManager) (r : Sequencer × (DirectorType × Sink Bytes))
    → IsSafe now cm
    → IsDelivered now peer_id cm.peer_list r
    → Returns (IsSafe now) (store_delivery peer_id cm r)
store_delivery-IsSafe now peer_id cm (seq, (td, to_local)) s (v, (r, o)) = record {
  list = Validity.set_peer_sequencer-IsValid peer_id now seq cm.peer_list v s.list;
  routed =
      IsRouted-mono cm.peer_list (PeerList.set_peer_sequencer peer_id seq cm.peer_list) td
        (λ j. set_peer_sequencer-IsKnown peer_id j seq cm.peer_list) r;
  remotes = s.remotes;
  local = o;
  logging = s.logging;
  own_id = s.own_id;
  own_ip = s.own_ip;
}

handle_incoming_packet-IsSafe :
    (slicer : SlicedPacket) (now : ℕ) (pkt : Packet) (cm : ConnectionManager)
    → pkt.seq < 2 ^ 64
    → IsSafe now cm
    → Returns (IsSafe now) (handle_incoming_packet slicer now pkt cm)
unfolding handle_incoming_packet
handle_incoming_packet-IsSafe slicer now pkt cm range s =
    elim (Option-cases (PeerList.get_peer_sequencer pkt.peer_id cm.peer_list)) [
      | inl unknown ↦ rw (unknown, handle_incoming_packet) s
      | inr (seq, found) ↦
          let known = get_peer_sequencer-IsKnown pkt.peer_id seq cm.peer_list found in
          let valid =
            get_peer_sequencer-IsPeerSequencer now pkt.peer_id seq cm.peer_list s.list found in
          let s' = Sequencer.insert_packet pkt seq in
          rw (found, handle_incoming_packet)
            (>>=-Returns (IsDelivered now pkt.peer_id cm.peer_list) (IsSafe now)
              (deliver (length s'.packet_queue) now (learn_and_forward slicer) s'
                (cm.traffic_director, cm.packets_to_local))
              (store_delivery pkt.peer_id cm)
              (deliver-Returns now pkt.peer_id (IsReady cm.peer_list) (learn_and_forward slicer)
                (λ p st. learn_and_forward-IsReady slicer cm.peer_list pkt.peer_id p st known) s'
                (cm.traffic_director, cm.packets_to_local)
                (insert_packet-IsPeerSequencer now pkt.peer_id pkt seq range refl valid)
                (s.routed, s.local))
              (λ r. store_delivery-IsSafe now pkt.peer_id cm r s))
    ]

handle_instant_keepalive-IsSafe :
    (codec : Bincode) (now peer_id : ℕ) (cm : ConnectionManager)
    → IsBincode codec
    → IsSafe now cm
    → Returns (IsSafe now) (handle_instant_keepalive codec peer_id cm)
unfolding handle_instant_keepalive
handle_instant_keepalive-IsSafe codec now peer_id cm law s =
    let (serialized, e, _) =
      serialize_unwrap_total codec (keepalive (keepalive_message cm)) law (s.own_id, s.own_ip) in
    rw (e, send_to_remotes-sent _ serialized cm s.remotes) (sent-IsSafe now _ cm s)

announce-IsSafe :
    (codec : Bincode) (now : ℕ) (k : Keepalive) (td : DirectorType) (cm : ConnectionManager)
    → IsBincode codec
    → IsKnown k.peer_id cm.peer_list
    → IsRouted cm.peer_list td
    → IsSafe now cm
    → Returns (IsSafe now) (announce codec k td cm)
unfolding announce
announce-IsSafe codec now k (layer2 td) cm law known r s = s
announce-IsSafe codec now k (layer3 td) cm law known r s = elim (Option-cases k.tun_ip) [
  | inl absent ↦ rw (absent, announce) s
  | inr (tun_ip, given) ↦
      let td' = (insert_route k.peer_id (v4 tun_ip) td).0 in
      let safe : IsSafe now (record cm { traffic_director = layer3 td' }) =
        with_director now (layer3 td') cm
          (insert_route-AllEntries _ k.peer_id (v4 tun_ip) td known r) s in
      elim (Bool-cases (insert_route k.peer_id (v4 tun_ip) td).1) [
        | inl new ↦
            rw (given, announce, new)
              (handle_instant_keepalive-IsSafe codec now k.peer_id _ law safe)
        | inr old ↦ rw (given, announce, old) safe
      ]
]

handle_incoming_keepalive-IsSafe :
    (codec : Bincode) (now : ℕ) (k : Keepalive) (source : SocketAddr) (cm : ConnectionManager)
    → IsBincode codec
    → IsSafe now cm
    → Returns (IsSafe now) (handle_incoming_keepalive codec now k source cm)
unfolding handle_incoming_keepalive
handle_incoming_keepalive-IsSafe codec now k source cm law s =
    let safe =
      with_list now (PeerList.add_peer k.peer_id source now cm.peer_list) cm
        (Validity.add_peer-IsValid k.peer_id source now cm.peer_list s.list)
        (λ j. add_peer-IsKnown k.peer_id j source now cm.peer_list) s in
    announce-IsSafe codec now k cm.traffic_director _ law
      (add_peer-IsKnown_self k.peer_id source now cm.peer_list) safe.routed safe

module _ (codec : Bincode) (slicer : SlicedPacket) (law : IsBincode codec) (now : ℕ)
    (raw : IncomingUnparsedPacket) where
  handle_message-IsSafe :
      (m : Messages) (cm : ConnectionManager)
      → IsMessage m
      → IsSafe now cm
      → Returns (IsSafe now) (handle_message codec slicer now raw m cm)
  unfolding handle_message
  handle_message-IsSafe (packet pkt) cm range s =
      >>=-Returns (IsSafe now) (IsSafe now)
        (write_interface_log now raw.receiver_interface pkt.seq cm)
        (handle_incoming_packet slicer now pkt) (write_interface_log-IsSafe now pkt.seq raw cm s)
        (λ cm'. handle_incoming_packet-IsSafe slicer now pkt cm' range.0)
  handle_message-IsSafe (keepalive k) cm range s =
      handle_incoming_keepalive-IsSafe codec now k raw.received_from cm law s

  pub handle_udp_packet-IsSafe :
      (cm : ConnectionManager)
      → IsSafe now cm
      → Returns (IsSafe now) (handle_udp_packet codec slicer now raw cm)
  unfolding handle_udp_packet
  handle_udp_packet-IsSafe cm s = elim (Option-cases (codec.deserialize raw.bytes)) [
    | inl garbage ↦ rw (garbage, handle_udp_packet) s
    | inr (m, decoded) ↦
        rw (decoded, handle_udp_packet)
          (handle_message-IsSafe m cm (law.typed raw.bytes m decoded) s)
  ]
