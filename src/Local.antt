-- ===== src/Local.antt =====
-- src/local.rs: the local interface, of layer 2 through libpcap or of layer 3 through a tun device. What
-- the devices answer is an argument of each call.
use Prim.Native.String.{String}
use mpconn.Base.{
  ℕ, Bool, true, false, Option, none, some, List, [], ◌∷◌, ◌++◌, take, Outcome, done, panic, check,
  ◌>>=◌, io_failure,
}
use mpconn.AsyncPcap
use mpconn.AsyncPcap.{
  Readiness, is_ready, ready_error, SendPacket, Capture, Poll, pending, ready_ok, ready_err, Device,
  Pcap, ReadBuf, put_slice, poll_read, poll_write,
}
use mpconn.Messages.{Bytes}
use mpconn.Net.{Ipv4Addr}
use mpconn.Settings.{SettingsFile, LocalTypes}
use mpconn.Settings

-- A tun device; `sent` is what was written to it.
pub record Tun : Type 0 where
  pub name : String
  pub mtu : ℕ
  pub address : Ipv4Addr
  pub broadcast : Ipv4Addr
  pub netmask : Ipv4Addr
  pub sent : List Bytes

-- The halves of a device after `tokio::io::split`; what was written is kept with the writing half.
pub data LocalReaders : Type 0 where
  layer2_reader layer3_reader : LocalReaders

pub data LocalWriters : Type 0 where
  layer2_writer : Pcap → LocalWriters
  layer3_writer : Tun → LocalWriters

pub record Local : Type 0 where
  pub reader : LocalReaders
  pub writer : LocalWriters

-- What `TunBuilder` and the tun device answer: each is a call whose result is unwrapped, the last six
-- only for the log.
pub record TunAnswers : Type 0 where
  pub builds : Bool
  pub mtu : Bool
  pub flags : Bool
  pub address : Bool
  pub destination : Bool
  pub broadcast : Bool
  pub netmask : Bool

unfoldable pub make_tunnel : TunAnswers → Ipv4Addr → Outcome Tun
make_tunnel answers tun_ip = do
  _ ← check answers.builds
  _ ← check answers.mtu
  _ ← check answers.flags
  _ ← check answers.address
  _ ← check answers.destination
  _ ← check answers.broadcast
  _ ← check answers.netmask
  done (record {
    name = "";
    mtu = 1424;
    address = tun_ip;
    broadcast = 0xffffffff;
    netmask = 0xffffff00;
    sent = [];
  })

-- `AsyncPcapStream::new(network_interface).unwrap()`
abbrev pub unwrap_capture : Option Pcap → Outcome Pcap
unwrap_capture none = panic io_failure
unwrap_capture (some cap) = done cap

-- What a device of either kind answers when it is opened.
pub record OpenAnswers : Type 0 where
  pub capture : Device
  pub tun : TunAnswers

unfoldable pub new : OpenAnswers → LocalTypes → Outcome Local
unfolding make_tunnel AsyncPcap.new
new answers (Settings.layer2 network_interface) = do
  opened ← AsyncPcap.new answers.capture
  cap ← unwrap_capture opened
  done (record { reader = layer2_reader; writer = layer2_writer cap })
new answers (Settings.layer3 tun_ip) = do
  tun ← make_tunnel answers.tun tun_ip
  done (record { reader = layer3_reader; writer = layer3_writer tun })

-- What the devices answer to a write: the readiness is there, or failed, and then libpcap answers; or
-- the tun device took some of the bytes, or failed.
pub record WriteAnswer : Type 0 where
  pub pcap : Option SendPacket
  pub tun : Option ℕ

-- The round of `poll_write` that does not wait.
abbrev pub write_round : Option SendPacket → Readiness × SendPacket
write_round none = (ready_error, AsyncPcap.other_error)
write_round (some answer) = (is_ready, answer)

-- `.unwrap()` of what a poll gave that does not wait
abbrev pub unwrap_poll {ℓ} : {S : Type ℓ} → Poll ℕ × S → Outcome S
unwrap_poll (pending, s) = done s
unwrap_poll (ready_ok n, s) = done s
unwrap_poll (ready_err, s) = panic io_failure

-- The tun device takes `n` bytes of the buffer, or the write fails.
abbrev pub write_tun : Option ℕ → Bytes → Tun → Outcome Tun
write_tun none buffer tun = panic io_failure
write_tun (some n) buffer tun = done (record tun { sent = tun.sent ++ take n buffer ∷ [] })

-- `write_buf` writes once, and not at all if the buffer is empty.
unfoldable pub write_half : WriteAnswer → Bytes → LocalWriters → Outcome LocalWriters
write_half answer [] writer = done writer
write_half answer (b ∷ bs) (layer2_writer pcap) = do
  r ← poll_write (write_round answer.pcap ∷ []) (b ∷ bs) pcap
  pcap' ← unwrap_poll r
  done (layer2_writer pcap')
write_half answer (b ∷ bs) (layer3_writer tun) = do
  tun' ← write_tun answer.tun (b ∷ bs) tun
  done (layer3_writer tun')

unfoldable pub write : WriteAnswer → Bytes → Local → Outcome Local
unfolding write_half
write answer buffer local = do
  writer ← write_half answer buffer local.writer
  done (record local { writer = writer })

-- What the devices answer to one poll of a read: the rounds of `poll_read`; or what the tun
-- device gives.
pub record ReadAnswer : Type 0 where
  pub pcap : List (Readiness × Capture)
  pub tun : Poll Bytes

-- `.unwrap()` of a read, if the poll does not wait; the result says whether it read.
abbrev pub unwrap_read : Poll (Unit {0}) × ReadBuf → Outcome (Bool × ReadBuf)
unwrap_read (pending, buf) = done (false, buf)
unwrap_read (ready_ok _, buf) = done (true, buf)
unwrap_read (ready_err, buf) = panic io_failure

abbrev pub read_tun : Poll Bytes → ReadBuf → Outcome (Poll (Unit {0}) × ReadBuf)
read_tun pending buf = done (pending, buf)
read_tun (ready_ok bytes) buf = do buf' ← put_slice bytes buf; done (ready_ok tt, buf')
read_tun ready_err buf = done (ready_err, buf)

-- One poll of `read_buf`, which fills the rest of the buffer's capacity.
unfoldable pub read_half : ReadAnswer → ReadBuf → LocalReaders → Outcome (Bool × ReadBuf)
read_half answer buffer layer2_reader = do r ← poll_read answer.pcap buffer; unwrap_read r
read_half answer buffer layer3_reader = do r ← read_tun answer.tun buffer; unwrap_read r

unfoldable pub read : ReadAnswer → ReadBuf → Local → Outcome (Bool × ReadBuf)
unfolding read_half
read answer buffer local = read_half answer buffer local.reader
