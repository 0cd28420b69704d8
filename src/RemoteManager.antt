-- ===== src/RemoteManager.antt =====
-- src/remote_manager.rs: one task for each remote of the settings, between the channels and the socket.
-- An event is a branch of the task's `select!`, with what the channel or the socket gives.
pub mod Traffic
pub mod Failures
pub mod Transport
pub mod Defaults
use mpconn.Base.{
  ℕ, Bool, true, Option, none, some, List, [], ◌∷◌, Outcome, done, panic, ◌>>=◌, channel_closed,
  io_failure, no_receiver,
}
use mpconn.Messages.{IncomingUnparsedPacket, OutgoingUdpPacket}
use mpconn.Remote.{Lz4, Item, SendResult, AsyncRemote, udp, udp_lz4, new_udp, new_lz4, write, read}
use mpconn.Settings.{SettingsFile, RemoteTypes}
use mpconn.Settings
use mpconn.Sink.{Sink, put}
use mpconn.Socket.{Os}

-- `bc.recv().await`: a packet, or one of the errors `RecvError`.
pub data Received : Type 0 where
  packet : OutgoingUdpPacket → Received
  lagged : ℕ → Received
  closed : Received

pub data Event : Type 0 where
  outgoing : Received → SendResult → Event
  incoming : Option Item → Event

pub record Task : Type 0 where
  pub remote : AsyncRemote
  pub mpsc_channel : Sink IncomingUnparsedPacket

-- The default of `bind_to_device`.
abbrev pub unwrap_or_true : Option Bool → Bool
unwrap_or_true none = true
unwrap_or_true (some bind_to_device) = bind_to_device

unfoldable pub make_remote : Os → RemoteTypes → Outcome AsyncRemote
make_remote os (Settings.udp iface listen_addr listen_port bind_to_device) = do
  r ← new_udp os iface listen_addr listen_port (unwrap_or_true bind_to_device)
  done (udp r)
make_remote os (Settings.udp_lz4 iface listen_addr listen_port bind_to_device) = do
  r ← new_lz4 os iface listen_addr listen_port (unwrap_or_true bind_to_device)
  done (udp_lz4 r)

-- `for dev in &settings.remotes`
unfoldable pub make_tasks :
    Os → List RemoteTypes → Sink IncomingUnparsedPacket → Outcome (List Task)
unfolding make_remote
make_tasks os [] mpsc_channel = done []
make_tasks os (dev ∷ devs) mpsc_channel = do
  remote ← make_remote os dev
  tasks ← make_tasks os devs mpsc_channel
  done (record { remote = remote; mpsc_channel = mpsc_channel } ∷ tasks)

unfoldable pub new : Os → SettingsFile → Sink IncomingUnparsedPacket → Outcome (List Task)
unfolding make_tasks
new os settings raw_udp_from_remotes = make_tasks os settings.remotes raw_udp_from_remotes

-- `incoming.unwrap()`
abbrev pub unwrap_incoming : Option IncomingUnparsedPacket → Outcome IncomingUnparsedPacket
unwrap_incoming none = panic io_failure
unwrap_incoming (some raw) = done raw

module _ (lz4 : Lz4) where
  unfoldable pub step : Event → Task → Outcome Task
  step (outgoing (packet p) result) task = do
    remote ← write lz4 result p.packet_bytes p.destination task.remote
    done (record task { remote = remote })
  step (outgoing (lagged n) result) task = done task
  step (outgoing closed result) task = panic channel_closed
  step (incoming item) task = do
    result ← read lz4 item task.remote
    raw ← unwrap_incoming result
    sink ← put no_receiver raw task.mpsc_channel
    done (record task { mpsc_channel = sink })

  unfoldable pub run : List Event → Task → Outcome Task
  run [] task = done task
  run (event ∷ events) task = step event task >>= run events
