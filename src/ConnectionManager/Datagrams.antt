-- ===== src/ConnectionManager/Datagrams.antt =====
-- A run of datagrams that src/connection_manager.rs receives, and the packets that they carry.
use mpconn.Base.{
  ℕ, ◌<◌, ◌^◌, ◌≡◌, ◌⊎◌, inl, inr, refl, ap, sym, subst, ◌∙◌, All, Bool, true, false, Option, some,
  none, List, [], ◌∷◌, Outcome, done, ◌>>=◌, Returns, >>=-Returns, if◌then◌else◌,
}
use mpconn.Bincode.{Bincode, IsBincode, IsTunIp}
use mpconn.Messages.{Bytes, Packet, Keepalive, Messages, packet, keepalive, IncomingUnparsedPacket}
use mpconn.Net.{SocketAddr}
use mpconn.PeerList
use mpconn.PeerList.Counters.{get_peer_sequencer-set, get_peer_sequencer-add_peer}
use mpconn.Sequencer.{Sequencer}
use mpconn.Sequencer.Copies.{received, given}
use mpconn.Sink.{Sink, IsOpen, extended}
use mpconn.TrafficDirector.{SlicedPacket}
use mpconn.ConnectionManager.Announcements.{
  announced, after_keepalive, answered, handle_incoming_keepalive-after_keepalive,
}
use mpconn.ConnectionManager.State.{ConnectionManager}
use mpconn.ConnectionManager.Incoming.{handle_incoming_packet, handle_udp_packet, handle_message}
use mpconn.ConnectionManager.Receives.{
  payloads, after_delivery, handle_incoming_packet-after_delivery,
}
use mpconn.ConnectionManager.Safety.{IsLogging}
use mpconn.ConnectionManager.Sends.{Carries}
use mpconn.ConnectionManager.Streams.{handle_all}
use mpconn.ConnectionManager.Tunnel.{logged, handle_udp_packet-carried, IsLogging-extended}

-- The datagram is a packet of the peer, or a keepalive of anyone, or cannot be read.
abbrev pub IsExpected : Bincode → ℕ → IncomingUnparsedPacket → Type 0
IsExpected codec peer_id raw =
    ((pkt : Packet) × Carries codec raw.bytes (packet pkt) × (pkt.peer_id ≡ peer_id))
    ⊎ (((k : Keepalive) × Carries codec raw.bytes (keepalive k))
        ⊎ (codec.deserialize raw.bytes ≡ none))

abbrev pub keep : ℕ → Option Messages → List (ℕ × Packet) → List (ℕ × Packet)
keep now none pkts = pkts
keep now (some (packet pkt)) pkts = (now, pkt) ∷ pkts
keep now (some (keepalive k)) pkts = pkts

-- The packets that the datagrams carry, with the times of their arrival.
abbrev pub decoded : Bincode → List (ℕ × IncomingUnparsedPacket) → List (ℕ × Packet)
decoded codec [] = []
decoded codec ((now, raw) ∷ l) = keep now (codec.deserialize raw.bytes) (decoded codec l)

-- A manager that can receive from the peer, whose sequencer is `s`, and can answer keepalives.
pub record CanReceive (peer_id : ℕ) (s : Sequencer) (cm : ConnectionManager) : Type 0 where
  pub local : IsOpen cm.packets_to_local
  pub remotes : IsOpen cm.udp_output_broadcast_to_remotes
  pub logging : IsLogging cm.interface_logger
  pub own_id : cm.own_peer_id < 2 ^ 16
  pub own_ip : IsTunIp cm.own_tun_ip
  pub known : PeerList.get_peer_sequencer peer_id cm.peer_list ≡ some s

-- It still can, and nothing was written to the local interface.
abbrev StillReceives : ℕ → Sequencer → ConnectionManager → ConnectionManager → Type 0
StillReceives peer_id s cm after =
    CanReceive peer_id s after × (after.packets_to_local ≡ cm.packets_to_local)

after_keepalive-StillReceives :
    (peer_id now : ℕ) (s : Sequencer) (k : Keepalive) (source : SocketAddr) (cm : ConnectionManager)
    (serialized : Bytes) (is_new : Bool)
    → CanReceive peer_id s cm
    → StillReceives peer_id s cm (
        if is_new
        then answered serialized k.peer_id (after_keepalive now k source cm)
        else after_keepalive now k source cm)
after_keepalive-StillReceives peer_id now s k source cm serialized true c = (
  record {
    local = c.local;
    remotes = c.remotes;
    logging = c.logging;
    own_id = c.own_id;
    own_ip = c.own_ip;
    known = get_peer_sequencer-add_peer k.peer_id peer_id source now s cm.peer_list c.known;
  },
  refl,
)
after_keepalive-StillReceives peer_id now s k source cm serialized false c = (
  record {
    local = c.local;
    remotes = c.remotes;
    logging = c.logging;
    own_id = c.own_id;
    own_ip = c.own_ip;
    known = get_peer_sequencer-add_peer k.peer_id peer_id source now s cm.peer_list c.known;
  },
  refl,
)

module _ (codec : Bincode) (slicer : SlicedPacket) (law : IsBincode codec) (peer_id : ℕ) where
  handle_udp_packet-StillReceives :
      (now : ℕ) (s : Sequencer) (raw : IncomingUnparsedPacket) (k : Keepalive)
      (cm : ConnectionManager)
      → Carries codec raw.bytes (keepalive k)
      → CanReceive peer_id s cm
      → Returns (StillReceives peer_id s cm) (handle_udp_packet codec slicer now raw cm)
  unfolding handle_udp_packet handle_message
  handle_udp_packet-StillReceives now s raw k cm carries c =
      let (serialized, out, eq) =
        handle_incoming_keepalive-after_keepalive codec now k raw.received_from cm law c.remotes
          c.own_id c.own_ip in
      rw (carries, handle_udp_packet)
        (subst (Returns (StillReceives peer_id s cm)) (sym eq) (
          after_keepalive-StillReceives peer_id now s k raw.received_from cm serialized
            (announced k.peer_id k.tun_ip cm.traffic_director).1 c))

  -- The state after a packet of the peer.
  abbrev after_packet : ℕ → Packet → Sequencer → ConnectionManager → ConnectionManager
  after_packet now pkt s cm =
      after_delivery slicer pkt.peer_id (received now pkt s) (given pkt s) cm

  handle_incoming_packet-after_packet :
      (now : ℕ) (pkt : Packet) (s : Sequencer) (cm : ConnectionManager)
      → pkt.peer_id ≡ peer_id
      → IsOpen cm.packets_to_local
      → PeerList.get_peer_sequencer peer_id cm.peer_list ≡ some s
      → (handle_incoming_packet slicer now pkt cm ≡ done (after_packet now pkt s cm))
        × (PeerList.get_peer_sequencer peer_id (after_packet now pkt s cm).peer_list
            ≡ some (received now pkt s))
  handle_incoming_packet-after_packet now pkt s cm owner o known =
      let known' : PeerList.get_peer_sequencer pkt.peer_id cm.peer_list ≡ some s = rw owner known in
      let kept = get_peer_sequencer-set pkt.peer_id s (received now pkt s) cm.peer_list known' in
      (
        handle_incoming_packet-after_delivery slicer now pkt s cm o known',
        subst
            (λ i.
              PeerList.get_peer_sequencer i (after_packet now pkt s cm).peer_list
              ≡ some (received now pkt s))
            owner kept,
      )

-- The handler run on datagrams with the times of their arrival.
module _ (codec : Bincode) (slicer : SlicedPacket) where
  unfoldable pub handle_all_udp :
      List (ℕ × IncomingUnparsedPacket) → ConnectionManager → Outcome ConnectionManager
  handle_all_udp [] cm = done cm
  handle_all_udp ((now, raw) ∷ l) cm =
      handle_udp_packet codec slicer now raw cm >>= handle_all_udp l

-- What holds of the local interface after the carried packets alone were handled, from a state `alone`
-- with the same sequencer, holds after all the datagrams.
module _ (codec : Bincode) (slicer : SlicedPacket) (law : IsBincode codec) (peer_id : ℕ)
    (P : Sink Bytes → Type 0) where
  pub handle_all_udp-decoded :
      (l : List (ℕ × IncomingUnparsedPacket)) (s : Sequencer) (cm alone : ConnectionManager)
      → All (λ a. IsExpected codec peer_id a.1) l
      → CanReceive peer_id s cm
      → PeerList.get_peer_sequencer peer_id alone.peer_list ≡ some s
      → cm.packets_to_local ≡ alone.packets_to_local
      → Returns (λ r. P r.packets_to_local) (handle_all slicer (decoded codec l) alone)
      → Returns (λ r. P r.packets_to_local) (handle_all_udp codec slicer l cm)
  unfolding handle_all_udp handle_all handle_udp_packet
  handle_all_udp-decoded [] s cm alone h c known same r = subst P (sym same) r
  handle_all_udp-decoded ((now, raw) ∷ l) s cm alone h c known same r = elim h.0 [
    | inl (pkt, carries, owner) ↦
        let here = logged now raw.receiver_interface pkt.seq cm in
        let after = after_packet codec slicer law peer_id now pkt s here in
        let (eq, kept) =
          handle_incoming_packet-after_packet codec slicer law peer_id now pkt s here owner c.local
            c.known in
        let (eq_alone, kept_alone) =
          handle_incoming_packet-after_packet codec slicer law peer_id now pkt s alone owner
            (subst IsOpen same c.local) known in
        let c' : CanReceive peer_id (received now pkt s) after = record {
          local = c.local;
          remotes = c.remotes;
          logging = IsLogging-extended _ cm.interface_logger c.logging;
          own_id = c.own_id;
          own_ip = c.own_ip;
          known = kept;
        } in
        subst (Returns (λ r. P r.packets_to_local))
          (sym (
            ap (λ m. m >>= handle_all_udp codec slicer l)
              (handle_udp_packet-carried codec slicer now raw pkt cm c.logging carries ∙ eq)))
          (handle_all_udp-decoded l (received now pkt s) after
            (after_packet codec slicer law peer_id now pkt s alone) h.1 c' kept_alone
            (ap (extended (payloads (given pkt s))) same)
            (subst (Returns (λ r. P r.packets_to_local))
              (ap (λ m. m >>= handle_all slicer (decoded codec l)) eq_alone) (rw carries at r)))
    | inr (inl (k, carries)) ↦
        >>=-Returns (StillReceives peer_id s cm) (λ r. P r.packets_to_local)
          (handle_udp_packet codec slicer now raw cm) (handle_all_udp codec slicer l)
          (handle_udp_packet-StillReceives codec slicer law peer_id now s raw k cm carries c)
          (λ after still.
            handle_all_udp-decoded l s after alone h.1 still.0 known (still.1 ∙ same)
              (rw carries at r))
    | inr (inr garbage) ↦
        rw (garbage, handle_udp_packet)
          (handle_all_udp-decoded l s cm alone h.1 c known same (rw garbage at r))
  ]
