-- ===== src/ConnectionManager/Receives.antt =====
-- What src/connection_manager.rs does with a packet that arrives, in closed form.
use mathlib.Core.Path.{ap₂}
use mpconn.Base.{
  ℕ, ◌≡◌, ap, sym, ◌∙◌, some, List, [], ◌∷◌, map, done, ◌>>=◌, no_receiver, ◌+◌, ◌<◌, ◌^◌,
}
use mpconn.Messages.{Bytes, Packet}
use mpconn.PeerList
use mpconn.PeerList.Counters.{set_peer_sequencer_same, get_peer_sequencer-set}
use mpconn.Sequencer.{Sequencer}
use mpconn.Sequencer.Deliver.{each, deliver-consecutive}
use mpconn.Sequencer.Order.{Fits}
use mpconn.Sequencer.Copies.{received, given, received_again}
use mpconn.Sink.{Sink, IsOpen, extended, put-extended, extended-nil, extended-extended}
use mpconn.TrafficDirector.{SlicedPacket, DirectorType}
use mpconn.ConnectionManager.State.{ConnectionManager}
use mpconn.ConnectionManager.Incoming.{learn, learn_and_forward, handle_incoming_packet}

abbrev pub payloads : List Packet → List Bytes
payloads pkts = map (λ p. p.bytes) pkts

module _ (slicer : SlicedPacket) where
  -- The director after it saw some packets, in order.
  abbrev pub learn_all : List Packet → DirectorType → DirectorType
  learn_all [] td = td
  learn_all (pkt ∷ pkts) td = learn_all pkts (learn slicer pkt td)

  each-learn_and_forward :
      (pkts : List Packet) (td : DirectorType) (to_local : Sink Bytes)
      → IsOpen to_local
      → each (learn_and_forward slicer) pkts (td, to_local)
        ≡ done (learn_all pkts td, extended (payloads pkts) to_local)
  unfolding each learn_and_forward
  each-learn_and_forward [] td to_local h =
      ap (λ sink. done (td, sink)) (sym (extended-nil to_local))
  each-learn_and_forward (pkt ∷ pkts) td to_local h =
      rw (put-extended no_receiver pkt.bytes to_local h) (
        each-learn_and_forward pkts (learn slicer pkt td) (extended (pkt.bytes ∷ []) to_local) h
        ∙ ap (λ sink. done (learn_all pkts (learn slicer pkt td), sink))
            (extended-extended (pkt.bytes ∷ []) (payloads pkts) to_local))

  -- The state after packets of a peer were given out and its sequencer is `s`.
  abbrev pub after_delivery : ℕ → Sequencer → List Packet → ConnectionManager → ConnectionManager
  after_delivery peer_id s pkts cm = record cm {
    peer_list = PeerList.set_peer_sequencer peer_id s cm.peer_list;
    traffic_director = learn_all pkts cm.traffic_director;
    packets_to_local = extended (payloads pkts) cm.packets_to_local;
  }

  -- A packet of a known peer goes into the peer's sequencer. The packets that are then due are all
  -- written to the local interface, in order, after the director learnt from each, and nothing else
  -- changes.
  pub handle_incoming_packet-after_delivery :
      (now : ℕ) (pkt : Packet) (s : Sequencer) (cm : ConnectionManager)
      → IsOpen cm.packets_to_local
      → PeerList.get_peer_sequencer pkt.peer_id cm.peer_list ≡ some s
      → handle_incoming_packet slicer now pkt cm
        ≡ done (after_delivery pkt.peer_id (received now pkt s) (given pkt s) cm)
  unfolding handle_incoming_packet
  handle_incoming_packet-after_delivery now pkt s cm h found =
      rw (found, handle_incoming_packet, deliver-consecutive)
        (rw (each-learn_and_forward (given pkt s) cm.traffic_director cm.packets_to_local h))

  pub after_delivery_none :
      (peer_id : ℕ) (t : Sequencer) (cm : ConnectionManager)
      → PeerList.get_peer_sequencer peer_id cm.peer_list ≡ some t
      → after_delivery peer_id t [] cm ≡ cm
  after_delivery_none peer_id t cm found =
      ap
        (λ list. record cm { peer_list = list; packets_to_local = extended [] cm.packets_to_local })
        (set_peer_sequencer_same peer_id t cm.peer_list found)
      ∙ ap (λ sink. record cm { packets_to_local = sink }) (extended-nil cm.packets_to_local)

  -- A packet that changes nothing in its sequencer changes nothing.
  pub handle_incoming_packet_idle :
      (later : ℕ) (copy : Packet) (t : Sequencer) (cm : ConnectionManager)
      → IsOpen cm.packets_to_local
      → PeerList.get_peer_sequencer copy.peer_id cm.peer_list ≡ some t
      → given copy t ≡ []
      → received later copy t ≡ t
      → handle_incoming_packet slicer later copy cm ≡ done cm
  handle_incoming_packet_idle later copy t cm h found nothing same =
      handle_incoming_packet-after_delivery later copy t cm h found
      ∙ ap₂ (λ t' pkts. done (after_delivery copy.peer_id t' pkts cm)) same nothing
      ∙ ap done (after_delivery_none copy.peer_id t cm found)

  -- A second copy of a packet, such as each further network path brings, changes nothing at all, if
  -- the numbers that wait and that of the packet are below the last `u64`.
  pub handle_incoming_packet_copy :
      (now later : ℕ) (pkt copy : Packet) (s : Sequencer) (cm : ConnectionManager)
      → IsOpen cm.packets_to_local
      → PeerList.get_peer_sequencer pkt.peer_id cm.peer_list ≡ some s
      → Fits s.next_seq s.packet_queue
      → pkt.seq + 1 < 2 ^ 64
      → copy.seq ≡ pkt.seq
      → copy.peer_id ≡ pkt.peer_id
      → (handle_incoming_packet slicer now pkt cm >>= handle_incoming_packet slicer later copy)
        ≡ handle_incoming_packet slicer now pkt cm
  handle_incoming_packet_copy now later pkt copy s cm h found fits early seq owner =
      let cm' = after_delivery pkt.peer_id (received now pkt s) (given pkt s) cm in
      let first = handle_incoming_packet-after_delivery now pkt s cm h found in
      let (nothing, same) = received_again now later pkt copy s fits early seq in
      let kept : PeerList.get_peer_sequencer copy.peer_id cm'.peer_list
          ≡ some (received now pkt s) =
        rw owner (get_peer_sequencer-set pkt.peer_id s (received now pkt s) cm.peer_list found) in
      ap (λ r. r >>= handle_incoming_packet slicer later copy) first
      ∙ handle_incoming_packet_idle later copy (received now pkt s) cm' h kept nothing same
      ∙ sym first
