-- ===== src/AsyncPcap.antt =====
-- src/async_pcap.rs: a network interface through libpcap, as an asynchronous stream. A poll is given
-- what the reactor and libpcap answer to it, one pair for each round of its loop; the last round of a
-- poll that waits has `not_ready`. `guard.try_io` of tokio goes round again exactly if its closure
-- gives `WouldBlock`.
pub mod Polls
use mpconn.Base.{
  Bool, Option, some, none, check, ℕ, ◌+◌, ◌<◌, List, [], ◌∷◌, ◌++◌, length, leb, if◌then◌else◌,
  Outcome, done, panic, ◌>>=◌, io_failure, buffer_overflow, unimplemented,
}
use mpconn.Messages.{Bytes}

-- `poll_read_ready` and `poll_write_ready`
pub data Readiness : Type 0 where
  not_ready ready_error is_ready : Readiness

-- `sendpacket`; `other_error` is each error but `send: Message too long`
pub data SendPacket : Type 0 where
  packet_sent message_too_long other_error : SendPacket

-- `next`
pub data Capture : Type 0 where
  captured : Bytes → Capture
  capture_error : Capture

-- `Poll<io::Result<A>>`
pub data Poll (A : Type 0) : Type 0 where
  pending : Poll A
  ready_ok : A → Poll A
  ready_err : Poll A

-- What a closure gives to `try_io`, where `would_block` is the error of that kind.
pub data TryIo (A : Type 0) : Type 0 where
  try_ok : A → TryIo A
  would_block : TryIo A

-- `sent` is what went out on the interface.
pub record Pcap : Type 0 where
  pub sent : List Bytes

-- Which steps of opening a capture succeed: `Capture::from_device`, `open`, `setnonblock` and
-- `AsyncFd::new`.
pub record Device : Type 0 where
  pub found : Bool
  pub opens : Bool
  pub sets_nonblock : Bool
  pub registers : Bool

-- `AsyncPcapStream::new`; only the last step gives an error to the caller, `none`.
unfoldable pub new : Device → Outcome (Option Pcap)
new device = do
  _ ← check device.found
  _ ← check device.opens
  _ ← check device.sets_nonblock
  done (if device.registers then some (record { sent = [] }) else none)

-- The filled part of a buffer, and its size.
pub record ReadBuf : Type 0 where
  pub filled : Bytes
  pub capacity : ℕ

-- `buf.put_slice(data)`
unfoldable pub put_slice : Bytes → ReadBuf → Outcome ReadBuf
put_slice bytes buf =
    if leb (length buf.filled + length bytes) buf.capacity
    then done (record buf { filled = buf.filled ++ bytes })
    else panic buffer_overflow

-- The closure of `poll_write`.
abbrev pub send_packet : SendPacket → Bytes → Pcap → Outcome (TryIo ℕ × Pcap)
send_packet packet_sent buf pcap =
    done (try_ok (length buf), record pcap { sent = pcap.sent ++ buf ∷ [] })
send_packet message_too_long buf pcap = done (try_ok (length buf), pcap)
send_packet other_error buf pcap = panic io_failure

unfoldable pub poll_write : List (Readiness × SendPacket) → Bytes → Pcap → Outcome (Poll ℕ × Pcap)
poll_write [] buf pcap = done (pending, pcap)
poll_write ((not_ready, _) ∷ rest) buf pcap = done (pending, pcap)
poll_write ((ready_error, _) ∷ rest) buf pcap = done (ready_err, pcap)
poll_write ((is_ready, answer) ∷ rest) buf pcap = do
  r ← send_packet answer buf pcap
  elim r.0 [ try_ok n ↦ done (ready_ok n, r.1) | would_block ↦ poll_write rest buf r.1 ]

unfoldable pub poll_flush : Outcome (Poll (Unit {0}))
poll_flush = panic unimplemented

unfoldable pub poll_shutdown : Outcome (Poll (Unit {0}))
poll_shutdown = panic unimplemented

-- The closure of `poll_read`; each error of libpcap becomes `WouldBlock`.
abbrev pub next_packet : Capture → ReadBuf → Outcome (TryIo ℕ × ReadBuf)
next_packet (captured bytes) buf = do buf' ← put_slice bytes buf; done (try_ok (length bytes), buf')
next_packet capture_error buf = done (would_block, buf)

unfoldable pub poll_read :
    List (Readiness × Capture) → ReadBuf → Outcome (Poll (Unit {0}) × ReadBuf)
poll_read [] buf = done (pending, buf)
poll_read ((not_ready, _) ∷ rest) buf = done (pending, buf)
poll_read ((ready_error, _) ∷ rest) buf = done (ready_err, buf)
poll_read ((is_ready, answer) ∷ rest) buf = do
  r ← next_packet answer buf
  elim r.0 [ try_ok len ↦ done (ready_ok tt, r.1) | would_block ↦ poll_read rest r.1 ]
