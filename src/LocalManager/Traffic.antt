-- ===== src/LocalManager/Traffic.antt =====
-- What the task of src/local_manager.rs moves over a run.
use mpconn.Base.{
  ℕ, ◌+◌, ◌≡◌, refl, ap, sym, ◌∙◌, All, Option, none, some, List, [], ◌∷◌, length, leb, true,
  if◌then◌else◌, arith, done, ◌>>=◌, no_receiver,
}
use mpconn.AsyncPcap.{
  Poll, pending, ready_ok, ready_err, ReadBuf, Pcap, put_slice, SendPacket, packet_sent,
  message_too_long, other_error, poll_write,
}
use mpconn.AsyncPcap.Polls.{fill, poll_read-fill}
use mpconn.Local
use mpconn.Local.{
  Tun, Local, LocalReaders, layer2_reader, layer3_reader, LocalWriters, layer2_writer,
  layer3_writer, ReadAnswer, WriteAnswer, read_tun, unwrap_read,
}
use mpconn.LocalManager.{
  Event, tun_result, new_packet_to_local, LocalManager, send_filled, step, run,
}
use mpconn.Messages.{Bytes}
use mpconn.Sink.{IsOpen, extended, put-extended, extended-nil}
use mpconn.LocalManager.Packets.{
  reader_of, pcap_written, tun_written, writer_of, IsFitting, IsHandled, packet_of, reading,
  or_nothing, writing, readings, writings, with_sent, with_sent-nil, after_packets,
  after_packets_none, after_packets-after_packets,
}

pub read-fill :
    (answer : ReadAnswer) (buf : ReadBuf) (reader : LocalReaders)
    → Local.read_half answer buf reader ≡ (fill (reader_of reader answer) buf >>= unwrap_read)
unfolding Local.read_half
read-fill answer buf layer2_reader = ap (λ r. r >>= unwrap_read) (poll_read-fill answer.pcap buf)
read-fill answer buf layer3_reader = ap (λ r. r >>= unwrap_read) (read_tun-fill answer.tun buf)
  where
    read_tun-fill : (p : Poll Bytes) (buf : ReadBuf) → read_tun p buf ≡ fill p buf
    read_tun-fill pending buf = refl
    read_tun-fill (ready_ok bytes) buf = refl
    read_tun-fill ready_err buf = refl

write_pcap :
    (answer : Option SendPacket) (tun : Option ℕ) (b : ℕ) (bs : Bytes) (out : List Bytes)
    (pcap : Pcap)
    → pcap_written answer (b ∷ bs) ≡ some out
    → Local.write_half (record { pcap = answer; tun = tun }) (b ∷ bs) (layer2_writer pcap)
      ≡ done (with_sent (or_nothing (pcap_written answer (b ∷ bs))) (layer2_writer pcap))
unfolding Local.write_half poll_write
write_pcap none tun b bs out pcap h = absurd (ground (arith, h))
write_pcap (some packet_sent) tun b bs out pcap h = refl
write_pcap (some message_too_long) tun b bs out pcap h =
    ap done (sym (with_sent-nil (layer2_writer pcap)))
write_pcap (some other_error) tun b bs out pcap h = absurd (ground (arith, h))

write_device :
    (answer : Option ℕ) (pcap : Option SendPacket) (b : ℕ) (bs : Bytes) (out : List Bytes)
    (tun : Tun)
    → tun_written answer (b ∷ bs) ≡ some out
    → Local.write_half (record { pcap = pcap; tun = answer }) (b ∷ bs) (layer3_writer tun)
      ≡ done (with_sent (or_nothing (tun_written answer (b ∷ bs))) (layer3_writer tun))
unfolding Local.write_half
write_device none pcap b bs out tun h = absurd (ground (arith, h))
write_device (some n) pcap b bs out tun h = refl

write-with_sent :
    (answer : WriteAnswer) (bytes : Bytes) (out : List Bytes) (writer : LocalWriters)
    → writer_of writer answer bytes ≡ some out
    → Local.write_half answer bytes writer
      ≡ done (with_sent (or_nothing (writer_of writer answer bytes)) writer)
unfolding Local.write_half
write-with_sent answer [] out writer h = ap done (sym (with_sent-nil writer))
write-with_sent answer (b ∷ bs) out (layer2_writer pcap) h =
    write_pcap answer.pcap answer.tun b bs out pcap h
write-with_sent answer (b ∷ bs) out (layer3_writer tun) h =
    write_device answer.tun answer.pcap b bs out tun h

-- The buffer as it is between two events.
abbrev pub idle : ReadBuf
idle = record { filled = []; capacity = 65535 }

after_read :
    (p : Poll Bytes) (lm : LocalManager)
    → IsFitting p
    → IsOpen lm.packets_from_local
    → lm.tun_buf ≡ idle
    → (fill p lm.tun_buf >>= unwrap_read >>= λ r.
        if r.0 then send_filled r.1 lm else done (record lm { tun_buf = r.1 }))
      ≡ done (after_packets [] (packet_of p) lm)
unfolding send_filled put_slice
after_read pending lm fit o e = ap done (sym (after_packets_none lm))
after_read (ready_ok bytes) lm fit o e =
    let fits : leb (length idle.filled + length bytes) idle.capacity ≡ true = ground arith in
    rw (e, fits, put-extended no_receiver bytes lm.packets_from_local o)
      (ap
        (λ writer. done (record lm {
          local = record lm.local { writer = writer };
          packets_from_local = extended (bytes ∷ []) lm.packets_from_local;
          tun_buf = idle;
        }))
        (sym (with_sent-nil lm.local.writer)))
after_read ready_err lm fit o e = absurd fit

pub step-after_packets :
    (event : Event) (lm : LocalManager)
    → IsHandled (reader_of lm.local.reader) (writer_of lm.local.writer) event
    → IsOpen lm.packets_from_local
    → lm.tun_buf ≡ idle
    → step event lm
      ≡ done (
          after_packets
            (writing (writer_of lm.local.writer) event)
            (reading (reader_of lm.local.reader) event)
            lm)
unfolding step Local.read Local.write
step-after_packets (tun_result answer) lm h o e =
    ap (λ m. m >>= λ r. if r.0 then send_filled r.1 lm else done (record lm { tun_buf = r.1 }))
      (read-fill answer lm.tun_buf lm.local.reader)
    ∙ after_read (reader_of lm.local.reader answer) lm h o e
step-after_packets (new_packet_to_local none answer) lm h o e = absurd h
step-after_packets (new_packet_to_local (some bytes) answer) lm (out, h) o e =
    ap
      (λ m. (m >>= λ writer. done (record lm.local { writer = writer })) >>= λ local.
        done (record lm { local = local }))
      (write-with_sent answer bytes out lm.local.writer h)
    ∙ ap
        (λ sink. done (record lm {
          local = record lm.local {
            writer =
                with_sent (or_nothing (writer_of lm.local.writer answer bytes)) lm.local.writer;
          };
          packets_from_local = sink;
        }))
        (sym (extended-nil lm.packets_from_local))

-- What was written does not change how the device is written to.
pub with_sent-writer_of :
    (out : List Bytes) (writer : LocalWriters) → writer_of (with_sent out writer) ≡ writer_of writer
with_sent-writer_of out (layer2_writer pcap) = refl
with_sent-writer_of out (layer3_writer tun) = refl

-- A task whose events are all handled, whose buffer starts empty and whose channel takes packets, panics
-- at none. It hands each packet that it reads to the manager, whole and alone, in order. Of the packets
-- that it gets the device is given, in order: on layer 2 each whole packet but those for which libpcap
-- says that the message is too long, which are dropped; on layer 3 of each the first bytes, as many as
-- one write takes. Empty packets are not written.
pub run-after_packets :
    (events : List Event) (lm : LocalManager)
    → All (IsHandled (reader_of lm.local.reader) (writer_of lm.local.writer)) events
    → IsOpen lm.packets_from_local
    → lm.tun_buf ≡ idle
    → run events lm
      ≡ done (
          after_packets
            (writings (writer_of lm.local.writer) events)
            (readings (reader_of lm.local.reader) events)
            lm)
unfolding run
run-after_packets [] lm h o e = ap done (sym (after_packets_none lm))
run-after_packets (event ∷ events) lm h o e =
    let out = writing (writer_of lm.local.writer) event in
    let packets = reading (reader_of lm.local.reader) event in
    let w = with_sent-writer_of out lm.local.writer in
    rw (step-after_packets event lm h.0 o e) (
      run-after_packets events (after_packets out packets lm) (rw w h.1) o e
      ∙ rw w (ap done (after_packets-after_packets out _ packets _ lm)))
