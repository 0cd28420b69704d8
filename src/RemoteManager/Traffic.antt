-- ===== src/RemoteManager/Traffic.antt =====
-- What a task of src/remote_manager.rs sends and receives over a run.
use Prim.Native.String.{String}
use mathlib.Core.List.{append-nil, append_assoc}
use mpconn.Base.{
  ap, sym, refl, ◌∙◌, ◌≡◌, All, Option, none, some, List, [], ◌∷◌, ◌++◌, done, no_receiver,
}
use mpconn.Messages.{Bytes, IncomingUnparsedPacket, OutgoingUdpPacket}
use mpconn.Net.{SocketAddr}
use mpconn.Remote.{
  Lz4, received, receive_error, sent, network_unreachable, other, AsyncRemote, udp, udp_lz4,
  unparsed, write_udp, write, read, get_interface,
}
use mpconn.RemoteManager.{packet, lagged, closed, Event, outgoing, incoming, Task, step, run}
use mpconn.Sink.{Sink, IsOpen, extended, put-extended, extended-nil, extended-extended}

-- What a remote makes of the bytes it sends, and of those it receives.
abbrev pub wire_of : Lz4 → AsyncRemote → Bytes → Bytes
wire_of lz4 (udp r) bytes = bytes
wire_of lz4 (udp_lz4 r) bytes = lz4.compress bytes

abbrev pub plain_of : Lz4 → AsyncRemote → Bytes → Option Bytes
plain_of lz4 (udp r) bytes = some bytes
plain_of lz4 (udp_lz4 r) bytes = lz4.decompress bytes

-- The event does not end the task: the channel is open, the send succeeds or finds the network
-- unreachable, and a datagram is received whole.
abbrev pub IsHandled : (Bytes → Option Bytes) → Event → Type 0
IsHandled plain (outgoing (packet p) sent) = Unit
IsHandled plain (outgoing (packet p) network_unreachable) = Unit
IsHandled plain (outgoing (packet p) other) = ⊥
IsHandled plain (outgoing (lagged n) result) = Unit
IsHandled plain (outgoing closed result) = ⊥
IsHandled plain (incoming (some (received bytes adder))) = (b : Bytes) × (plain bytes ≡ some b)
IsHandled plain (incoming (some receive_error)) = ⊥
IsHandled plain (incoming none) = ⊥

abbrev pub writing : (Bytes → Bytes) → Event → List (Bytes × SocketAddr)
writing wire (outgoing (packet p) sent) = (wire p.packet_bytes, p.destination) ∷ []
writing wire _ = []

-- The datagrams that the events send.
abbrev pub written : (Bytes → Bytes) → List Event → List (Bytes × SocketAddr)
written wire [] = []
written wire (event ∷ events) = writing wire event ++ written wire events

abbrev pub reading : (Bytes → Option Bytes) → String → Event → List IncomingUnparsedPacket
reading plain interface (incoming (some (received bytes adder))) = elim (plain bytes) [
  | none ↦ []
  | some b ↦ unparsed interface b adder ∷ []
]
reading plain interface _ = []

-- The datagrams that the events receive.
abbrev pub readings : (Bytes → Option Bytes) → String → List Event → List IncomingUnparsedPacket
readings plain interface [] = []
readings plain interface (event ∷ events) =
    reading plain interface event ++ readings plain interface events

abbrev pub with_output : List (Bytes × SocketAddr) → AsyncRemote → AsyncRemote
with_output out (udp r) = udp (record r { output = r.output ++ out })
with_output out (udp_lz4 r) = udp_lz4 (record r { output = r.output ++ out })

with_output-nil : (remote : AsyncRemote) → with_output [] remote ≡ remote
with_output-nil (udp r) = ap (λ out. udp (record r { output = out })) (append-nil r.output)
with_output-nil (udp_lz4 r) = ap (λ out. udp_lz4 (record r { output = out })) (append-nil r.output)

with_output-with_output :
    (xs ys : List (Bytes × SocketAddr)) (remote : AsyncRemote)
    → with_output ys (with_output xs remote) ≡ with_output (xs ++ ys) remote
with_output-with_output xs ys (udp r) =
    ap (λ out. udp (record r { output = out })) (append_assoc r.output xs ys)
with_output-with_output xs ys (udp_lz4 r) =
    ap (λ out. udp_lz4 (record r { output = out })) (append_assoc r.output xs ys)

-- The task after some datagrams were sent and some received.
abbrev pub after_traffic : List (Bytes × SocketAddr) → List IncomingUnparsedPacket → Task → Task
after_traffic out raws task = record {
  remote = with_output out task.remote;
  mpsc_channel = extended raws task.mpsc_channel;
}

after_traffic_none : (task : Task) → after_traffic [] [] task ≡ task
after_traffic_none task =
    ap (λ remote. record { remote = remote; mpsc_channel = extended [] task.mpsc_channel })
      (with_output-nil task.remote)
    ∙ ap (λ sink. record task { mpsc_channel = sink }) (extended-nil task.mpsc_channel)

after_traffic-after_traffic :
    (xs ys : List (Bytes × SocketAddr)) (ps qs : List IncomingUnparsedPacket) (task : Task)
    → after_traffic ys qs (after_traffic xs ps task) ≡ after_traffic (xs ++ ys) (ps ++ qs) task
after_traffic-after_traffic xs ys ps qs task =
    ap
      (λ remote. record {
        remote = remote;
        mpsc_channel = extended qs (extended ps task.mpsc_channel);
      })
      (with_output-with_output xs ys task.remote)
    ∙ ap (λ sink. record { remote = with_output (xs ++ ys) task.remote; mpsc_channel = sink })
        (extended-extended ps qs task.mpsc_channel)

reading_lem :
    (plain : Bytes → Option Bytes) (interface : String) (bytes b : Bytes) (adder : SocketAddr)
    → plain bytes ≡ some b
    → reading plain interface (incoming (some (received bytes adder)))
      ≡ unparsed interface b adder ∷ []
reading_lem plain interface bytes b adder h =
    ap (λ o. elim o [ none ↦ [] | some b ↦ unparsed interface b adder ∷ [] ]) h

module _ (lz4 : Lz4) where
  send_after :
      (p : OutgoingUdpPacket) (remote : AsyncRemote) (sink : Sink IncomingUnparsedPacket)
      → step lz4 (outgoing (packet p) sent) (record { remote = remote; mpsc_channel = sink })
        ≡ done (record {
          remote = with_output (writing (wire_of lz4 remote) (outgoing (packet p) sent)) remote;
          mpsc_channel = sink;
        })
  unfolding step write write_udp
  send_after p (udp r) sink = refl
  send_after p (udp_lz4 r) sink = refl

  unreachable_after :
      (p : OutgoingUdpPacket) (remote : AsyncRemote) (sink : Sink IncomingUnparsedPacket)
      → step lz4
          (outgoing (packet p) network_unreachable)
          (record { remote = remote; mpsc_channel = sink })
        ≡ done (record { remote = remote; mpsc_channel = sink })
  unfolding step write write_udp
  unreachable_after p (udp r) sink = refl
  unreachable_after p (udp_lz4 r) sink = refl

  read_plain :
      (bytes b : Bytes) (adder : SocketAddr) (remote : AsyncRemote)
      → plain_of lz4 remote bytes ≡ some b
      → read lz4 (some (received bytes adder)) remote
        ≡ done (some (unparsed (get_interface remote) b adder))
  unfolding read get_interface
  read_plain bytes b adder (udp r) h = cc
  read_plain bytes b adder (udp_lz4 r) h = rw h refl

  pub step-after_traffic :
      (event : Event) (task : Task)
      → IsHandled (plain_of lz4 task.remote) event
      → IsOpen task.mpsc_channel
      → step lz4 event task
        ≡ done (
            after_traffic
              (writing (wire_of lz4 task.remote) event)
              (reading (plain_of lz4 task.remote) (get_interface task.remote) event)
              task)
  unfolding step
  step-after_traffic (outgoing (packet p) sent) task h o =
      send_after p task.remote task.mpsc_channel
      ∙ ap
          (λ sink. done (record {
            remote =
                with_output (writing (wire_of lz4 task.remote) (outgoing (packet p) sent))
                  task.remote;
            mpsc_channel = sink;
          }))
          (sym (extended-nil task.mpsc_channel))
  step-after_traffic (outgoing (packet p) network_unreachable) task h o =
      unreachable_after p task.remote task.mpsc_channel ∙ ap done (sym (after_traffic_none task))
  step-after_traffic (outgoing (packet p) other) task h o = absurd h
  step-after_traffic (outgoing (lagged n) result) task h o = ap done (sym (after_traffic_none task))
  step-after_traffic (outgoing closed result) task h o = absurd h
  step-after_traffic (incoming (some (received bytes adder))) task (b, h) o =
      rw (read_plain bytes b adder task.remote h, put-extended no_receiver _ task.mpsc_channel o)
        (ap
          (λ remote. done (record {
            remote = remote;
            mpsc_channel =
                extended (unparsed (get_interface task.remote) b adder ∷ []) task.mpsc_channel;
          }))
          (sym (with_output-nil task.remote)))
      ∙ ap (λ raws. done (after_traffic [] raws task))
          (sym (reading_lem (plain_of lz4 task.remote) (get_interface task.remote) bytes b adder h))
  step-after_traffic (incoming (some receive_error)) task h o = absurd h
  step-after_traffic (incoming none) task h o = absurd h

  -- The remote's way with bytes, which no event changes.
  abbrev pub IsRemote : (Bytes → Bytes) → (Bytes → Option Bytes) → String → AsyncRemote → Type 0
  IsRemote wire plain interface remote =
      (wire_of lz4 remote ≡ wire)
      × (plain_of lz4 remote ≡ plain)
      × (get_interface remote ≡ interface)

  pub with_output-IsRemote :
      (out : List (Bytes × SocketAddr)) (remote : AsyncRemote)
      → IsRemote
          (wire_of lz4 remote)
          (plain_of lz4 remote)
          (get_interface remote)
          (with_output out remote)
  unfolding get_interface
  with_output-IsRemote out (udp r) = (refl, refl, refl)
  with_output-IsRemote out (udp_lz4 r) = (refl, refl, refl)

  -- A task whose events are all handled panics at none. It sends the datagrams that are broadcast to
  -- it, in order, but for those that the channel dropped or whose network was unreachable, and hands
  -- each datagram that it receives to the manager, in order.
  pub run-after_traffic :
      (events : List Event) (task : Task)
      → All (IsHandled (plain_of lz4 task.remote)) events
      → IsOpen task.mpsc_channel
      → run lz4 events task
        ≡ done (
            after_traffic
              (written (wire_of lz4 task.remote) events)
              (readings (plain_of lz4 task.remote) (get_interface task.remote) events)
              task)
  unfolding run
  run-after_traffic [] task h o = ap done (sym (after_traffic_none task))
  run-after_traffic (event ∷ events) task h o =
      let out = writing (wire_of lz4 task.remote) event in
      let raws = reading (plain_of lz4 task.remote) (get_interface task.remote) event in
      let (w, p, i) = with_output-IsRemote out task.remote in
      rw (step-after_traffic event task h.0 o) (
        run-after_traffic events (after_traffic out raws task) (rw p h.1) o
        ∙ rw (w, p, i) (ap done (after_traffic-after_traffic out _ raws _ task)))
