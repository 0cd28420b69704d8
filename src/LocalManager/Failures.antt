-- ===== src/LocalManager/Failures.antt =====
-- When the task of src/local_manager.rs ends with a panic.
use mpconn.Base.{
  ℕ, ◌+◌, ◌≤◌, ◌≡◌, ◌↔◌, refl, ap, sym, subst, ◌∙◌, All, Option, none, some, Option-cases,
  Bool-cases, inl, inr, List, [], ◌∷◌, length, leb, if◌then◌else◌, arith, done, panic, ◌>>=◌,
  bind-done, done-injective, io_failure,
}
use mpconn.AsyncPcap.{
  Poll, pending, ready_ok, ready_err, ReadBuf, Pcap, put_slice, SendPacket, packet_sent,
  message_too_long, other_error, poll_write,
}
use mpconn.AsyncPcap.Polls.{fill}
use mpconn.Local
use mpconn.Local.{Tun, LocalWriters, layer2_writer, layer3_writer, WriteAnswer, unwrap_read}
use mpconn.LocalManager.{
  Event, tun_result, new_packet_to_local, LocalManager, send_filled, step, run,
}
use mpconn.Messages.{Bytes}
use mpconn.Sink.{IsOpen}
use mpconn.LocalManager.Packets.{
  reader_of, pcap_written, tun_written, writer_of, IsFitting, IsHandled, reading, writing,
  after_packets,
}
use mpconn.LocalManager.Traffic.{
  read-fill, step-after_packets, with_sent-writer_of, idle, run-after_packets,
}

pcap_fails :
    (answer : Option SendPacket) (tun : Option ℕ) (b : ℕ) (bs : Bytes) (pcap : Pcap)
    → pcap_written answer (b ∷ bs) ≡ none
    → Local.write_half (record { pcap = answer; tun = tun }) (b ∷ bs) (layer2_writer pcap)
      ≡ panic io_failure
unfolding Local.write_half poll_write
pcap_fails none tun b bs pcap h = refl
pcap_fails (some packet_sent) tun b bs pcap h = absurd (ground (arith, h))
pcap_fails (some message_too_long) tun b bs pcap h = absurd (ground (arith, h))
pcap_fails (some other_error) tun b bs pcap h = refl

device_fails :
    (answer : Option ℕ) (pcap : Option SendPacket) (b : ℕ) (bs : Bytes) (tun : Tun)
    → tun_written answer (b ∷ bs) ≡ none
    → Local.write_half (record { pcap = pcap; tun = answer }) (b ∷ bs) (layer3_writer tun)
      ≡ panic io_failure
unfolding Local.write_half
device_fails none pcap b bs tun h = refl
device_fails (some n) pcap b bs tun h = absurd (ground (arith, h))

write_fails :
    (answer : WriteAnswer) (bytes : Bytes) (writer : LocalWriters)
    → writer_of writer answer bytes ≡ none
    → Local.write_half answer bytes writer ≡ panic io_failure
write_fails answer [] writer h = absurd (ground (arith, h))
write_fails answer (b ∷ bs) (layer2_writer pcap) h = pcap_fails answer.pcap answer.tun b bs pcap h
write_fails answer (b ∷ bs) (layer3_writer tun) h = device_fails answer.tun answer.pcap b bs tun h

put_slice_lem :
    (bytes : Bytes) (buf after : ReadBuf)
    → put_slice bytes buf ≡ done after
    → length buf.filled + length bytes ≤ buf.capacity
unfolding put_slice
put_slice_lem bytes buf after e =
    elim (Bool-cases (leb (length buf.filled + length bytes) buf.capacity)) [
      | inl fits ↦ ground arith
      | inr long ↦ let e' = rw long at e in absurd cc
    ]

returned-IsFitting :
    (p : Poll Bytes) (lm after : LocalManager)
    → (fill p idle >>= unwrap_read >>= λ r.
        if r.0 then send_filled r.1 lm else done (record lm { tun_buf = r.1 }))
      ≡ done after
    → IsFitting p
returned-IsFitting pending lm after e = tt
returned-IsFitting (ready_ok bytes) lm after e =
    let (read, e1, e2) = bind-done (fill (ready_ok bytes) idle >>= unwrap_read) _ after e in
    let (filled, e3, e4) = bind-done (fill (ready_ok bytes) idle) unwrap_read read e1 in
    let (buf, e5, e6) = bind-done (put_slice bytes idle) _ filled e3 in
    omega (arith, put_slice_lem bytes idle buf e5)
returned-IsFitting ready_err lm after e = absurd cc

returned-IsHandled :
    (event : Event) (lm after : LocalManager)
    → lm.tun_buf ≡ idle
    → step event lm ≡ done after
    → IsHandled (reader_of lm.local.reader) (writer_of lm.local.writer) event
unfolding step Local.read Local.write
returned-IsHandled (tun_result answer) lm after idles e =
    returned-IsFitting (reader_of lm.local.reader answer) lm after (
      subst
        (λ m.
          (m >>= λ r. if r.0 then send_filled r.1 lm else done (record lm { tun_buf = r.1 }))
          ≡ done after)
        (ap (λ buf. Local.read_half answer buf lm.local.reader) idles
          ∙ read-fill answer idle lm.local.reader)
        e)
returned-IsHandled (new_packet_to_local none answer) lm after idles e = absurd cc
returned-IsHandled (new_packet_to_local (some bytes) answer) lm after idles e =
    elim (Option-cases (writer_of lm.local.writer answer bytes)) [
      | inl fails ↦ let e' = rw (write_fails answer bytes lm.local.writer fails) at e in absurd cc
      | inr written ↦ written
    ]

returned-All :
    (events : List Event) (lm after : LocalManager)
    → IsOpen lm.packets_from_local
    → lm.tun_buf ≡ idle
    → run events lm ≡ done after
    → All (IsHandled (reader_of lm.local.reader) (writer_of lm.local.writer)) events
unfolding run
returned-All [] lm after o idles e = tt
returned-All (event ∷ events) lm after o idles e =
    let (mid, stepped, e1) = bind-done (step event lm) _ after e in
    let handled = returned-IsHandled event lm mid idles stepped in
    let out = writing (writer_of lm.local.writer) event in
    let packets = reading (reader_of lm.local.reader) event in
    let is =
      done-injective (after_packets out packets lm) mid
        (sym (step-after_packets event lm handled o idles) ∙ stepped) in
    (
      handled,
      subst (λ writer. All (IsHandled (reader_of lm.local.reader) writer) events)
          (with_sent-writer_of out lm.local.writer)
          (returned-All events (after_packets out packets lm) after o idles
            (subst (λ t. run events t ≡ done after) (sym is) e1)),
    )

-- As long as the manager takes what it is handed, the task returns from a sequence of events exactly
-- if it handles each of them: the panics are those of a failed device, of a packet longer than the
-- buffer and of a closed channel.
pub run-done :
    (events : List Event) (lm : LocalManager)
    → IsOpen lm.packets_from_local
    → lm.tun_buf ≡ idle
    → ((after : LocalManager) × (run events lm ≡ done after))
      ↔ All (IsHandled (reader_of lm.local.reader) (writer_of lm.local.writer)) events
run-done events lm o idles = (
  λ (after, e). returned-All events lm after o idles e,
  λ handled. (_, run-after_packets events lm handled o idles),
)
