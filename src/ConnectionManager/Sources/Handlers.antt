-- ===== src/ConnectionManager/Sources/Handlers.antt =====
-- The handlers of src/connection_manager.rs, and where the packets come from that they write to the local
-- interface.
use Prim.Native.String.{String}
use mpconn.Base.{
  ℕ, ◌≡◌, refl, Bool, All, Option, Option-cases, inl, inr, some, none, List, [], ◌∷◌, ◌>>=◌, Yields,
  >>=-Yields, >>=-Yields_always, Yields-if, no_receiver,
}
use mpconn.Bincode.{Bincode, serialize_unwrap}
use mpconn.Messages.{Bytes, Packet, Keepalive, Messages, packet}
use mpconn.Net.{SocketAddr, v4}
use mpconn.PeerList
use mpconn.Sequencer
use mpconn.Sequencer.{Sequencer}
use mpconn.Sequencer.Genuine.{AllQueued, insert_packet-AllQueued}
use mpconn.Sequencer.Timer.{advance_queue-advanced}
use mpconn.Sink.{Sink, put, put-All}
use mpconn.TrafficDirector.{
  SlicedPacket, DirectorType, layer2, layer3, TrafficPath, broadcast, peer, insert_route,
}
use mpconn.ConnectionManager.State.{
  ConnectionManager, LogEntry, send_copies, send_to_remotes, write_interface_log, flush,
}
use mpconn.ConnectionManager.Incoming.{
  learn_and_forward, store_delivery, handle_incoming_packet, handle_instant_keepalive, announce,
}
use mpconn.ConnectionManager.Outgoing.{send_to_peer, send_to_peers, follow}
use mpconn.ConnectionManager.Timers.{
  forward, store_expiry, drain_late, drain_if_late, expire_peer, expire_peers,
}
use mpconn.ConnectionManager.Sources.{
  Holds, set_peer_sequencer-Holds, increment_peer_tx_counter-Holds, get_peer_sequencer-AllQueued,
  deliver-Yields,
}

module _ (P : Packet → Type 0) where
  -- The bytes are the payload of a packet that satisfies `P`.
  abbrev pub IsPayload : Bytes → Type 0
  IsPayload bytes = (pkt : Packet) × P pkt × (pkt.bytes ≡ bytes)

  -- What waits satisfies `P`, and so does what was written.
  pub record Passes (cm : ConnectionManager) : Type 0 where
    pub queued : Holds P cm.peer_list
    pub written : All IsPayload cm.packets_to_local.taken

  abbrev pub AreWritten : Sink Bytes → Type 0
  AreWritten to_local = All IsPayload to_local.taken

  send_to_remotes-Passes :
      (sockets : List SocketAddr) (bytes : Bytes) (cm : ConnectionManager)
      → Passes cm
      → Yields Passes (send_to_remotes sockets bytes cm)
  unfolding send_to_remotes
  send_to_remotes-Passes sockets bytes cm s =
      >>=-Yields_always Passes (send_copies sockets bytes cm.udp_output_broadcast_to_remotes) _
        (λ out. record { queued = s.queued; written = s.written })

  module _ (codec : Bincode) where
    pub serialize-Passes :
        (m : Messages) (sockets : List SocketAddr) (cm : ConnectionManager)
        → Passes cm
        → Yields Passes (serialize_unwrap codec m >>= λ bytes. send_to_remotes sockets bytes cm)
    serialize-Passes m sockets cm s =
        >>=-Yields_always Passes (serialize_unwrap codec m) _
          (λ bytes. send_to_remotes-Passes sockets bytes cm s)

    send_to_peer-Passes :
        (bytes : Bytes) (peer_id : ℕ) (cm : ConnectionManager)
        → Passes cm
        → Yields Passes (send_to_peer codec bytes peer_id cm)
    unfolding send_to_peer
    send_to_peer-Passes bytes peer_id cm s =
        >>=-Yields_always Passes (PeerList.get_peer_tx_counter peer_id cm.peer_list) _
          (λ tx_counter.
            serialize-Passes
              (packet (record { seq = tx_counter; peer_id = cm.own_peer_id; bytes = bytes })) _
              (record cm { peer_list = PeerList.increment_peer_tx_counter peer_id cm.peer_list })
              (record {
                queued = increment_peer_tx_counter-Holds P peer_id cm.peer_list s.queued;
                written = s.written;
              }))

    send_to_peers-Passes :
        (bytes : Bytes) (peer_ids : List ℕ) (cm : ConnectionManager)
        → Passes cm
        → Yields Passes (send_to_peers codec bytes peer_ids cm)
    unfolding send_to_peers
    send_to_peers-Passes bytes [] cm s = s
    send_to_peers-Passes bytes (peer_id ∷ peer_ids) cm s =
        >>=-Yields Passes Passes (send_to_peer codec bytes peer_id cm)
          (send_to_peers codec bytes peer_ids) (send_to_peer-Passes bytes peer_id cm s)
          (send_to_peers-Passes bytes peer_ids)

    pub follow-Passes :
        (bytes : Bytes) (path : Option TrafficPath) (cm : ConnectionManager)
        → Passes cm
        → Yields Passes (follow codec bytes path cm)
    unfolding follow
    follow-Passes bytes none cm s = s
    follow-Passes bytes (some broadcast) cm s = send_to_peers-Passes bytes _ cm s
    follow-Passes bytes (some (peer peer_id)) cm s = send_to_peer-Passes bytes peer_id cm s

    pub announce-Passes :
        (k : Keepalive) (td : DirectorType) (cm : ConnectionManager)
        → Passes cm
        → Yields Passes (announce codec k td cm)
    unfolding announce handle_instant_keepalive
    announce-Passes k (layer2 td) cm s = s
    announce-Passes k (layer3 td) cm s = elim (Option-cases k.tun_ip) [
      | inl e ↦ rw (e, announce) s
      | inr (tun_ip, e) ↦
          let route = insert_route k.peer_id (v4 tun_ip) td in
          let kept : Passes (record cm { traffic_director = layer3 route.0 }) = record {
            queued = s.queued;
            written = s.written;
          } in
          rw (e, announce) (Yields-if Passes route.1 _ _ (serialize-Passes _ _ _ kept) kept)
    ]

  pub write_interface_log-Passes :
      (now : ℕ) (receiver_interface : String) (seq : ℕ) (cm : ConnectionManager)
      → Passes cm
      → Yields Passes (write_interface_log now receiver_interface seq cm)
  unfolding write_interface_log
  write_interface_log-Passes now receiver_interface seq cm s =
      elim (Option-cases cm.interface_logger) [
        | inl e ↦ rw (e, write_interface_log) s
        | inr (if_log, e) ↦
            rw (e, write_interface_log)
              (>>=-Yields_always Passes (put _ _ if_log) _
                (λ log. record { queued = s.queued; written = s.written }))
      ]

  pub flush-Passes :
      (log : Option (Sink LogEntry)) (cm : ConnectionManager)
      → Passes cm
      → Yields Passes (flush log cm)
  unfolding flush
  flush-Passes none cm s = s
  flush-Passes (some if_log) cm s = Yields-if Passes if_log.accepts _ _ s tt

  module _ (slicer : SlicedPacket) where
    pub handle_incoming_packet-Passes :
        (now : ℕ) (pkt : Packet) (cm : ConnectionManager)
        → P pkt
        → Passes cm
        → Yields Passes (handle_incoming_packet slicer now pkt cm)
    unfolding handle_incoming_packet learn_and_forward
    handle_incoming_packet-Passes now pkt cm p s =
        elim (Option-cases (PeerList.get_peer_sequencer pkt.peer_id cm.peer_list)) [
          | inl unknown ↦ rw (unknown, handle_incoming_packet) s
          | inr (sequencer, known) ↦
              let waits =
                get_peer_sequencer-AllQueued P pkt.peer_id sequencer cm.peer_list s.queued known in
              rw (known, handle_incoming_packet)
                (>>=-Yields (λ r. AllQueued P r.0.packet_queue × AreWritten r.1.1) Passes _
                  (store_delivery pkt.peer_id cm)
                  (deliver-Yields P (λ st. AreWritten st.1) (learn_and_forward slicer)
                    (λ due st q h.
                      >>=-Yields AreWritten (λ st. AreWritten st.1) (put no_receiver due.bytes st.1)
                        _ (put-All IsPayload no_receiver due.bytes st.1 (due, q, refl) h)
                        (λ sink h'. h'))
                    now (Sequencer.insert_packet pkt sequencer)
                    (cm.traffic_director, cm.packets_to_local)
                    (insert_packet-AllQueued P pkt sequencer p waits) s.written)
                  (λ r h. record {
                    queued = set_peer_sequencer-Holds P pkt.peer_id r.0 cm.peer_list h.0 s.queued;
                    written = h.1;
                  }))
        ]

  drain_late-AreWritten :
      (late : Bool) (now : ℕ) (sequencer : Sequencer) (to_local : Sink Bytes)
      → AllQueued P sequencer.packet_queue
      → AreWritten to_local
      → Yields
          (λ r. AllQueued P r.0.packet_queue × AreWritten r.1)
          (drain_if_late late now sequencer to_local)
  unfolding drain_if_late drain_late forward
  drain_late-AreWritten late now sequencer to_local waits h =
      Yields-if _ late _ _
        (deliver-Yields P AreWritten forward
          (λ due sink q. put-All IsPayload no_receiver due.bytes sink (due, q, refl)) now
          (Sequencer.advance_queue sequencer) to_local (rw (advance_queue-advanced sequencer) waits)
          h)
        (waits, h)

  expire_peer-Passes :
      (now peer_id : ℕ) (cm : ConnectionManager)
      → Passes cm
      → Yields Passes (expire_peer now peer_id cm)
  unfolding expire_peer
  expire_peer-Passes now peer_id cm s =
      elim (Option-cases (PeerList.get_peer_sequencer peer_id cm.peer_list)) [
        | inl e ↦ rw (e, expire_peer) s
        | inr (sequencer, e) ↦
            let waits = get_peer_sequencer-AllQueued P peer_id sequencer cm.peer_list s.queued e in
            rw (e, expire_peer)
              (>>=-Yields_always Passes (Sequencer.is_deadline_exceeded now sequencer) _ (λ late.
                >>=-Yields (λ r. AllQueued P r.0.packet_queue × AreWritten r.1) Passes
                  (drain_if_late late now sequencer cm.packets_to_local) (store_expiry peer_id cm)
                  (drain_late-AreWritten late now sequencer cm.packets_to_local waits s.written)
                  (λ r h. record {
                    queued = set_peer_sequencer-Holds P peer_id r.0 cm.peer_list h.0 s.queued;
                    written = h.1;
                  })))
      ]

  pub expire_peers-Passes :
      (now : ℕ) (peer_ids : List ℕ) (cm : ConnectionManager)
      → Passes cm
      → Yields Passes (expire_peers now peer_ids cm)
  unfolding expire_peers
  expire_peers-Passes now [] cm s = s
  expire_peers-Passes now (peer_id ∷ peer_ids) cm s =
      >>=-Yields Passes Passes (expire_peer now peer_id cm) (expire_peers now peer_ids)
        (expire_peer-Passes now peer_id cm s) (expire_peers-Passes now peer_ids)
