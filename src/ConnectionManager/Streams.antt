-- ===== src/ConnectionManager/Streams.antt =====
-- The packets of one peer in src/connection_manager.rs, as its sequencer alone sees them.
use mpconn.Base.{
  ℕ, ◌≡◌, refl, ap, sym, ◌∙◌, All, map, length, some, none, List, [], ◌∷◌, ◌++◌, Outcome, done,
  ◌>>=◌, Returns, >>=-Returns, subst,
}
use mathlib.Core.List.{map-append}
use mpconn.Messages.{Packet}
use mpconn.PeerList
use mpconn.PeerList.Counters.{set_peer_sequencer-set, get_peer_sequencer-set}
use mpconn.Sequencer
use mpconn.Sequencer.{Sequencer}
use mpconn.Sequencer.Copies.{received, given}
use mpconn.Sequencer.History
use mpconn.Sequencer.History.{Trace, drain-drained}
use mpconn.Sequencer.Stream.{first, IsStream, arrival, IsEarlyArrival, run-IsStream}
use mpconn.Sink.{IsOpen, extended, extended-extended}
use mpconn.TrafficDirector.{SlicedPacket, DirectorType}
use mpconn.ConnectionManager.State.{ConnectionManager}
use mpconn.ConnectionManager.Incoming.{learn, handle_incoming_packet}
use mpconn.ConnectionManager.Receives.{
  payloads, learn_all, after_delivery, after_delivery_none, handle_incoming_packet-after_delivery,
}

-- All packets come from the peer.
abbrev pub IsFrom : ℕ → ℕ × Packet → Type 0
IsFrom peer_id (now, pkt) = pkt.peer_id ≡ peer_id

module _ (slicer : SlicedPacket) where
  -- The handler run on packets with the times of their arrival.
  unfoldable pub handle_all : List (ℕ × Packet) → ConnectionManager → Outcome ConnectionManager
  handle_all [] cm = done cm
  handle_all ((now, pkt) ∷ l) cm = handle_incoming_packet slicer now pkt cm >>= handle_all l

  learn_all-append :
      (xs ys : List Packet) (td : DirectorType)
      → learn_all slicer ys (learn_all slicer xs td) ≡ learn_all slicer (xs ++ ys) td
  learn_all-append [] ys td = refl
  learn_all-append (x ∷ xs) ys td = learn_all-append xs ys (learn slicer x td)

  after_delivery-after_delivery :
      (peer_id : ℕ) (s t : Sequencer) (xs ys : List Packet) (cm : ConnectionManager)
      → after_delivery slicer peer_id t ys (after_delivery slicer peer_id s xs cm)
        ≡ after_delivery slicer peer_id t (xs ++ ys) cm
  after_delivery-after_delivery peer_id s t xs ys cm =
      ap
        (λ list. record cm {
          peer_list = list;
          traffic_director = learn_all slicer ys (learn_all slicer xs cm.traffic_director);
          packets_to_local = extended (payloads ys) (extended (payloads xs) cm.packets_to_local);
        })
        (set_peer_sequencer-set peer_id s t cm.peer_list)
      ∙ ap
          (λ td. record cm {
            peer_list = PeerList.set_peer_sequencer peer_id t cm.peer_list;
            traffic_director = td;
            packets_to_local = extended (payloads ys) (extended (payloads xs) cm.packets_to_local);
          })
          (learn_all-append xs ys cm.traffic_director)
      ∙ ap
          (λ sink. record cm {
            peer_list = PeerList.set_peer_sequencer peer_id t cm.peer_list;
            traffic_director = learn_all slicer (xs ++ ys) cm.traffic_director;
            packets_to_local = sink;
          })
          (extended-extended (payloads xs) (payloads ys) cm.packets_to_local
            ∙ ap (λ items. extended items cm.packets_to_local)
                (sym (map-append (λ (p : Packet). p.bytes) xs ys)))

  -- The manager's state for a trace of the peer's sequencer.
  abbrev pub after_trace : ℕ → ConnectionManager → Trace → ConnectionManager
  after_trace peer_id cm (s, out) = after_delivery slicer peer_id s out cm

  handle_all-after_trace :
      (peer_id : ℕ) (l : List (ℕ × Packet)) (s t : Sequencer) (out : List Packet)
      (cm : ConnectionManager)
      → All (IsFrom peer_id) l
      → IsOpen cm.packets_to_local
      → PeerList.get_peer_sequencer peer_id cm.peer_list ≡ some t
      → handle_all l (after_delivery slicer peer_id s out cm)
        ≡ (History.run (map arrival l) (s, out) >>= λ r. done (after_trace peer_id cm r))
  unfolding handle_all History.run History.step
  handle_all-after_trace peer_id [] s t out cm owned open_sink found = refl
  handle_all-after_trace peer_id ((now, pkt) ∷ l) s t out cm owned open_sink found =
      let here = after_delivery slicer peer_id s out cm in
      let found' : PeerList.get_peer_sequencer pkt.peer_id here.peer_list ≡ some s =
        rw owned.0 (get_peer_sequencer-set peer_id t s cm.peer_list found) in
      let s' = received now pkt s in
      let pkts = given pkt s in
      ap (λ m. m >>= handle_all l)
        (handle_incoming_packet-after_delivery slicer now pkt s here open_sink found')
      ∙ ap (λ id. handle_all l (after_delivery slicer id s' pkts here)) owned.0
      ∙ ap (λ x. handle_all l x) (after_delivery-after_delivery peer_id s s' out pkts cm)
      ∙ handle_all-after_trace peer_id l s' t (out ++ pkts) cm owned.1 open_sink found
      ∙ ap (λ m. m >>= History.run (map arrival l) >>= λ r. done (after_trace peer_id cm r))
          (sym (drain-drained now (Sequencer.insert_packet pkt s) out))

  -- What a run of the handler has written when all that could be given out was.
  abbrev pub IsDelivered : List (ℕ × Packet) → ConnectionManager → ConnectionManager → Type 0
  IsDelivered l cm after =
      (out : List Packet) × (after.packets_to_local ≡ extended (payloads out) cm.packets_to_local)
      × IsStream (map (λ a. a.1) l) 0 out
      × (first (length out) (map (λ a. a.1) l) ≡ none)

  -- When packets of a peer with a new sequencer are handled, in whatever order and however often each,
  -- the local interface is given the bytes of the packets numbered 0, 1, …, each once and in order,
  -- up to the first number that did not arrive. The numbers are below the last `u64`.
  pub handle_all-IsDelivered :
      (peer_id deadline created : ℕ) (l : List (ℕ × Packet)) (cm : ConnectionManager)
      → All IsEarlyArrival l
      → All (IsFrom peer_id) l
      → IsOpen cm.packets_to_local
      → PeerList.get_peer_sequencer peer_id cm.peer_list ≡ some (Sequencer.new deadline created)
      → Returns (IsDelivered l cm) (handle_all l cm)
  handle_all-IsDelivered peer_id deadline created l cm early owned open_sink found =
      let s = Sequencer.new deadline created in
      let same : handle_all l cm
          ≡ (History.run (map arrival l) (s, []) >>= λ r. done (after_trace peer_id cm r)) =
        ap (λ x. handle_all l x) (sym (after_delivery_none slicer peer_id s cm found))
        ∙ handle_all-after_trace peer_id l s s [] cm owned open_sink found in
      subst (Returns (IsDelivered l cm)) (sym same) (
        >>=-Returns
          (λ r. IsStream (map (λ a. a.1) l) 0 r.1 × (first (length r.1) (map (λ a. a.1) l) ≡ none))
          (IsDelivered l cm) (History.run (map arrival l) (s, []))
          (λ r. done (after_trace peer_id cm r)) (run-IsStream deadline created l early)
          (λ r h. (r.1, refl, h.0, h.1)))
