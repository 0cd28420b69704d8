-- ===== src/LocalManager/Packets.antt =====
-- The packets that the task of src/local_manager.rs moves, and what its device then holds.
use mathlib.Core.List.{append-nil, append_assoc}
use mpconn.Base.{ℕ, ◌≤◌, ◌≡◌, ap, ◌∙◌, Option, none, some, List, [], ◌∷◌, ◌++◌, length, take}
use mpconn.AsyncPcap.{
  Poll, pending, ready_ok, ready_err, SendPacket, packet_sent, message_too_long, other_error,
}
use mpconn.AsyncPcap.Polls.{first_captured}
use mpconn.Local.{
  LocalReaders, layer2_reader, layer3_reader, LocalWriters, layer2_writer, layer3_writer,
  ReadAnswer, WriteAnswer,
}
use mpconn.LocalManager.{Event, tun_result, new_packet_to_local, LocalManager}
use mpconn.Messages.{Bytes}
use mpconn.Sink.{extended, extended-nil, extended-extended}

-- What an answer of the device gives the program to read.
abbrev pub reader_of : LocalReaders → ReadAnswer → Poll Bytes
reader_of layer2_reader answer = first_captured answer.pcap
reader_of layer3_reader answer = answer.tun

abbrev pub pcap_written : Option SendPacket → Bytes → Option (List Bytes)
pcap_written none bytes = none
pcap_written (some packet_sent) bytes = some (bytes ∷ [])
pcap_written (some message_too_long) bytes = some []
pcap_written (some other_error) bytes = none

abbrev pub tun_written : Option ℕ → Bytes → Option (List Bytes)
tun_written none bytes = none
tun_written (some n) bytes = some (take n bytes ∷ [])

-- What goes out on the device when a packet is written, or `none` if the task ends with a panic. The
-- tun device takes the first bytes of a packet, and the rest is dropped.
abbrev pub writer_of : LocalWriters → WriteAnswer → Bytes → Option (List Bytes)
writer_of writer answer [] = some []
writer_of (layer2_writer pcap) answer (b ∷ bs) = pcap_written answer.pcap (b ∷ bs)
writer_of (layer3_writer tun) answer (b ∷ bs) = tun_written answer.tun (b ∷ bs)

abbrev pub IsFitting : Poll Bytes → Type 0
IsFitting pending = Unit
IsFitting (ready_ok bytes) = length bytes ≤ 65535
IsFitting ready_err = ⊥

module _ (reader : ReadAnswer → Poll Bytes)
    (writer : WriteAnswer → Bytes → Option (List Bytes)) where
  -- The event does not end the task.
  abbrev pub IsHandled : Event → Type 0
  IsHandled (tun_result answer) = IsFitting (reader answer)
  IsHandled (new_packet_to_local none answer) = ⊥
  IsHandled (new_packet_to_local (some bytes) answer) =
      (out : List Bytes) × (writer answer bytes ≡ some out)

abbrev pub packet_of : Poll Bytes → List Bytes
packet_of pending = []
packet_of (ready_ok bytes) = bytes ∷ []
packet_of ready_err = []

abbrev pub reading : (ReadAnswer → Poll Bytes) → Event → List Bytes
reading reader (tun_result answer) = packet_of (reader answer)
reading reader (new_packet_to_local packet answer) = []

abbrev pub or_nothing : Option (List Bytes) → List Bytes
or_nothing none = []
or_nothing (some out) = out

abbrev pub writing : (WriteAnswer → Bytes → Option (List Bytes)) → Event → List Bytes
writing writer (tun_result answer) = []
writing writer (new_packet_to_local none answer) = []
writing writer (new_packet_to_local (some bytes) answer) = or_nothing (writer answer bytes)

-- The packets that the events read from the device, and those that they write to it.
abbrev pub readings : (ReadAnswer → Poll Bytes) → List Event → List Bytes
readings reader [] = []
readings reader (event ∷ events) = reading reader event ++ readings reader events

abbrev pub writings : (WriteAnswer → Bytes → Option (List Bytes)) → List Event → List Bytes
writings writer [] = []
writings writer (event ∷ events) = writing writer event ++ writings writer events

abbrev pub with_sent : List Bytes → LocalWriters → LocalWriters
with_sent out (layer2_writer pcap) = layer2_writer (record pcap { sent = pcap.sent ++ out })
with_sent out (layer3_writer tun) = layer3_writer (record tun { sent = tun.sent ++ out })

pub with_sent-nil : (writer : LocalWriters) → with_sent [] writer ≡ writer
with_sent-nil (layer2_writer pcap) =
    ap (λ out. layer2_writer (record pcap { sent = out })) (append-nil pcap.sent)
with_sent-nil (layer3_writer tun) =
    ap (λ out. layer3_writer (record tun { sent = out })) (append-nil tun.sent)

with_sent-with_sent :
    (xs ys : List Bytes) (writer : LocalWriters)
    → with_sent ys (with_sent xs writer) ≡ with_sent (xs ++ ys) writer
with_sent-with_sent xs ys (layer2_writer pcap) =
    ap (λ out. layer2_writer (record pcap { sent = out })) (append_assoc pcap.sent xs ys)
with_sent-with_sent xs ys (layer3_writer tun) =
    ap (λ out. layer3_writer (record tun { sent = out })) (append_assoc tun.sent xs ys)

-- The task after some packets went out on the device and some came in.
abbrev pub after_packets : List Bytes → List Bytes → LocalManager → LocalManager
after_packets out packets lm = record lm {
  local = record lm.local { writer = with_sent out lm.local.writer };
  packets_from_local = extended packets lm.packets_from_local;
}

pub after_packets_none : (lm : LocalManager) → after_packets [] [] lm ≡ lm
after_packets_none lm =
    ap
      (λ writer. record lm {
        local = record lm.local { writer = writer };
        packets_from_local = extended [] lm.packets_from_local;
      })
      (with_sent-nil lm.local.writer)
    ∙ ap (λ sink. record lm { packets_from_local = sink }) (extended-nil lm.packets_from_local)

pub after_packets-after_packets :
    (xs ys ps qs : List Bytes) (lm : LocalManager)
    → after_packets ys qs (after_packets xs ps lm) ≡ after_packets (xs ++ ys) (ps ++ qs) lm
after_packets-after_packets xs ys ps qs lm =
    ap
      (λ writer. record lm {
        local = record lm.local { writer = writer };
        packets_from_local = extended qs (extended ps lm.packets_from_local);
      })
      (with_sent-with_sent xs ys lm.local.writer)
    ∙ ap
        (λ sink. record lm {
          local = record lm.local { writer = with_sent (xs ++ ys) lm.local.writer };
          packets_from_local = sink;
        })
        (extended-extended ps qs lm.packets_from_local)
