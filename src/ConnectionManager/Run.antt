-- ===== src/ConnectionManager/Run.antt =====
-- The loop of `ConnectionManager::run`: an event for each branch of its `select!`, with the time at
-- which the branch is taken. `none` is a channel that was closed.
use mpconn.Base.{ℕ, Option, none, some, List, [], ◌∷◌, Outcome, done, panic, channel_closed, ◌>>=◌}
use mpconn.Bincode.{Bincode}
use mpconn.Messages.{Bytes, IncomingUnparsedPacket}
use mpconn.TrafficDirector.{SlicedPacket}
use mpconn.ConnectionManager.State.{ConnectionManager}
use mpconn.ConnectionManager.Incoming.{handle_udp_packet}
use mpconn.ConnectionManager.Outgoing.{handle_packet_from_local}
use mpconn.ConnectionManager.Timers.{
  handle_sequencer_tick, handle_maintenance_tick, handle_keepalive,
}

pub data Event : Type 0 where
  new_raw_udp_packet : Option IncomingUnparsedPacket → Event
  new_packet_from_local : Option Bytes → Event
  global_sequencer_tick maintenance_tick keepalive_tick : Event

module _ (codec : Bincode) (slicer : SlicedPacket) where
  unfoldable pub step : ℕ → Event → ConnectionManager → Outcome ConnectionManager
  step now (new_raw_udp_packet (some raw)) cm = handle_udp_packet codec slicer now raw cm
  step now (new_raw_udp_packet none) cm = panic channel_closed
  step now (new_packet_from_local (some bytes)) cm = handle_packet_from_local codec slicer bytes cm
  step now (new_packet_from_local none) cm = panic channel_closed
  step now global_sequencer_tick cm = handle_sequencer_tick now cm
  step now maintenance_tick cm = handle_maintenance_tick now cm
  step now keepalive_tick cm = handle_keepalive codec cm

  unfoldable pub run : List (ℕ × Event) → ConnectionManager → Outcome ConnectionManager
  run [] cm = done cm
  run ((now, event) ∷ events) cm = step now event cm >>= run events
