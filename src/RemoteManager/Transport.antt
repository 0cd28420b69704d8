-- ===== src/RemoteManager/Transport.antt =====
-- Two tasks of src/remote_manager.rs, at the two ends of one network path.
use Prim.Native.String.{String}
use mpconn.Base.{
  Any, Any-All, ◌<◌, ◌^◌, ◌≡◌, inl, inr, refl, ap, sym, subst, ◌∙◌, All, Option, some, none, List,
  [], ◌∷◌, ◌++◌, map, length, done, done-injective,
}
use mpconn.Messages.{Bytes, IncomingUnparsedPacket}
use mpconn.Net.{SocketAddr}
use mpconn.Remote.{
  Lz4, IsLz4, received, receive_error, sent, network_unreachable, other, AsyncRemote, udp, udp_lz4,
  get_interface,
}
use mpconn.Remote.RoundTrip.{IsSameKind, output_of}
use mpconn.RemoteManager.{packet, lagged, closed, Event, outgoing, incoming, Task, run}
use mpconn.RemoteManager.Failures.{run-IsHandled}
use mpconn.RemoteManager.Traffic.{
  wire_of, plain_of, written, readings, with_output, run-after_traffic,
}
use mpconn.Sink.{IsOpen, extended}

abbrev pub IsAmong : Bytes → List Bytes → Type 0
IsAmong bytes bs = Any (λ b. b ≡ bytes) bs

-- The bytes of the datagrams that the manager broadcasts to a task.
abbrev pub broadcasts : List Event → List Bytes
broadcasts [] = []
broadcasts (outgoing (packet p) result ∷ events) = p.packet_bytes ∷ broadcasts events
broadcasts (_ ∷ events) = broadcasts events

abbrev pub on_wire : List (Bytes × SocketAddr) → List Bytes
on_wire out = map (λ datagram. datagram.0) out

-- What the event receives is on the wire.
abbrev pub ComesFrom : List Bytes → Event → Type 0
ComesFrom wire (incoming (some (received bytes adder))) = IsAmong bytes wire
ComesFrom wire _ = Unit

-- What is on the wire is what became of some datagram.
written-IsAmong :
    (wire : Bytes → Bytes) (events : List Event) (bytes : Bytes)
    → IsAmong bytes (on_wire (written wire events))
    → (plain : Bytes) × IsAmong plain (broadcasts events) × (wire plain ≡ bytes)
written-IsAmong wire [] bytes h = absurd h
written-IsAmong wire (outgoing (packet p) sent ∷ events) bytes (inl e) =
    (p.packet_bytes, inl refl, e)
written-IsAmong wire (outgoing (packet p) sent ∷ events) bytes (inr h) =
    let (plain, among, e) = written-IsAmong wire events bytes h in (plain, inr among, e)
written-IsAmong wire (outgoing (packet p) network_unreachable ∷ events) bytes h =
    let (plain, among, e) = written-IsAmong wire events bytes h in (plain, inr among, e)
written-IsAmong wire (outgoing (packet p) other ∷ events) bytes h =
    let (plain, among, e) = written-IsAmong wire events bytes h in (plain, inr among, e)
written-IsAmong wire (outgoing (lagged n) result ∷ events) bytes h =
    written-IsAmong wire events bytes h
written-IsAmong wire (outgoing closed result ∷ events) bytes h = written-IsAmong wire events bytes h
written-IsAmong wire (incoming item ∷ events) bytes h = written-IsAmong wire events bytes h

-- The far end undoes what the near end does to a datagram.
plain_of-wire_of :
    (lz4 : Lz4) (a b : AsyncRemote) (bytes : Bytes)
    → IsLz4 lz4
    → IsSameKind a b
    → length bytes < 2 ^ 32
    → plain_of lz4 b (wire_of lz4 a bytes) ≡ some bytes
plain_of-wire_of lz4 (udp a) (udp b) bytes law same short = refl
plain_of-wire_of lz4 (udp_lz4 a) (udp_lz4 b) bytes law same short = law bytes short
plain_of-wire_of lz4 (udp a) (udp_lz4 b) bytes law same short = absurd same
plain_of-wire_of lz4 (udp_lz4 a) (udp b) bytes law same short = absurd same

-- What a task reads if all that it receives was put on the wire from some plain bytes.
readings-IsAmong :
    (plain : Bytes → Option Bytes) (interface : String) (on : List Bytes) (sources : List Bytes)
    (events : List Event)
    → ((bytes : Bytes)
        → IsAmong bytes on
        → (b : Bytes) × IsAmong b sources × (plain bytes ≡ some b))
    → All (ComesFrom on) events
    → All (λ raw. IsAmong raw.bytes sources) (readings plain interface events)
readings-IsAmong plain interface on sources [] known h = tt
readings-IsAmong plain interface on sources (incoming (some (received bytes adder)) ∷ events) known
      h =
    let (b, among, e) = known bytes h.0 in
    rw (e, All) (among, readings-IsAmong plain interface on sources events known h.1)
readings-IsAmong plain interface on sources (incoming (some receive_error) ∷ events) known h =
    readings-IsAmong plain interface on sources events known h.1
readings-IsAmong plain interface on sources (incoming none ∷ events) known h =
    readings-IsAmong plain interface on sources events known h.1
readings-IsAmong plain interface on sources (outgoing r result ∷ events) known h =
    readings-IsAmong plain interface on sources events known h.1

output_of-with_output :
    (out : List (Bytes × SocketAddr)) (remote : AsyncRemote)
    → output_of (with_output out remote) ≡ output_of remote ++ out
output_of-with_output out (udp r) = refl
output_of-with_output out (udp_lz4 r) = refl

-- Two tasks of remotes of the same kind, which panic at none of their events and whose managers take
-- what they are handed, over a network that may lose, repeat and reorder; the sender's socket has sent
-- nothing before. If all datagrams that the one receives are ones that the other has put on the wire,
-- then the receiver hands its manager only byte strings that the sender's manager has broadcast,
-- whole, if these are of fewer than 2^32 bytes each and lz4 is as documented.
pub run-IsAmong :
    (lz4 : Lz4) (events_a events_b : List Event) (a b after_a after_b : Task)
    → IsLz4 lz4
    → IsSameKind a.remote b.remote
    → output_of a.remote ≡ []
    → IsOpen a.mpsc_channel
    → IsOpen b.mpsc_channel
    → run lz4 events_a a ≡ done after_a
    → run lz4 events_b b ≡ done after_b
    → All (λ bytes. length bytes < 2 ^ 32) (broadcasts events_a)
    → All (ComesFrom (on_wire (output_of after_a.remote))) events_b
    → (raws : List IncomingUnparsedPacket) × (after_b.mpsc_channel ≡ extended raws b.mpsc_channel)
      × All (λ raw. IsAmong raw.bytes (broadcasts events_a)) raws
run-IsAmong lz4 events_a events_b a b after_a after_b law same unused open_a open_b ran_a ran_b
      short heard =
    let wire = wire_of lz4 a.remote in
    let plain = plain_of lz4 b.remote in
    let handled_a = (run-IsHandled lz4 events_a a open_a).0 (after_a, ran_a) in
    let handled_b = (run-IsHandled lz4 events_b b open_b).0 (after_b, ran_b) in
    let is_a =
      done-injective _ after_a (sym (run-after_traffic lz4 events_a a handled_a open_a) ∙ ran_a) in
    let is_b =
      done-injective _ after_b (sym (run-after_traffic lz4 events_b b handled_b open_b) ∙ ran_b) in
    let out : output_of after_a.remote ≡ written wire events_a =
      ap (λ (t : Task). output_of t.remote) (sym is_a)
      ∙ output_of-with_output (written wire events_a) a.remote
      ∙ ap (λ o. o ++ written wire events_a) unused in
    let raws = readings plain (get_interface b.remote) events_b in
    (
      raws,
      ap (λ (t : Task). t.mpsc_channel) (sym is_b),
      readings-IsAmong plain (get_interface b.remote) (on_wire (written wire events_a))
          (broadcasts events_a) events_b
          (λ bytes there.
            let (source, among, e) = written-IsAmong wire events_a bytes there in
            (
              source,
              among,
              ap plain (sym e)
                  ∙ plain_of-wire_of lz4 a.remote b.remote source law same (
                      Any-All (λ b. b ≡ source) (λ bytes. length bytes < 2 ^ 32)
                        (length source < 2 ^ 32) (broadcasts events_a)
                        (λ b same h. subst (λ bytes. length bytes < 2 ^ 32) same h) among short),
            ))
          (subst (λ o. All (ComesFrom (on_wire o)) events_b) out heard),
    )
