-- ===== src/ConnectionManager/Safety/Run.antt =====
-- The whole loop of src/connection_manager.rs, from `new` on, and the invariant.
use mpconn.PeerList
use mpconn.PeerList.{PeerList}
use mpconn.ConnectionManager.State.{
  ConnectionManager, LogEntry, send_to_remotes, keepalive_message, write_interface_log,
  flush_interface_log,
}
use mpconn.ConnectionManager.Safety.{IsSafe, IsRouted, IsLogging}
use mpconn.Bincode.{Bincode, IsBincode, IsBytes, IsTunIp}
use mpconn.Messages.{Bytes, OutgoingUdpPacket}
use mpconn.Base.{ℕ, ◌≤◌, ◌<◌, ◌^◌, Option, none, some, List, [], ◌∷◌, Returns, >>=-Returns}
use mpconn.PeerList.Validity
use mpconn.PeerList.Validity.{IsPeerSequencer}
use mpconn.Sink.{Sink, IsOpen}
use mpconn.TrafficDirector.{SlicedPacket}
use mpconn.Settings.{SettingsFile, LocalTypes}
use mpconn.Settings
use mpconn.ConnectionManager.State
use mpconn.ConnectionManager.State.{director_for, tun_ip_for}
use mpconn.ConnectionManager.Run.{
  Event, new_raw_udp_packet, new_packet_from_local, global_sequencer_tick, maintenance_tick,
  keepalive_tick, step, run,
}
use mpconn.ConnectionManager.Safety.{IsSafe-mono}
use mpconn.ConnectionManager.Safety.Incoming.{handle_udp_packet-IsSafe}
use mpconn.ConnectionManager.Safety.Outgoing.{handle_packet_from_local-IsSafe}
use mpconn.ConnectionManager.Safety.Timers.{
  handle_sequencer_tick-IsSafe, handle_maintenance_tick-IsSafe, handle_keepalive-IsSafe,
}

-- No channel is closed, and the local interface delivers bytes.
abbrev pub IsEvent : Event → Type 0
IsEvent (new_raw_udp_packet (some raw)) = Unit
IsEvent (new_raw_udp_packet none) = ⊥
IsEvent (new_packet_from_local (some bytes)) = IsBytes bytes
IsEvent (new_packet_from_local none) = ⊥
IsEvent global_sequencer_tick = Unit
IsEvent maintenance_tick = Unit
IsEvent keepalive_tick = Unit

-- And the clock does not go back.
abbrev pub IsSchedule : ℕ → List (ℕ × Event) → Type 0
IsSchedule now [] = Unit
IsSchedule now ((t, event) ∷ events) = (now ≤ t) × IsEvent event × IsSchedule t events

abbrev pub IsLocal : LocalTypes → Type 0
IsLocal (Settings.layer2 network_interface) = Unit
IsLocal (Settings.layer3 tun_ip) = tun_ip < 2 ^ 32

-- The numbers of the settings have their Rust types.
abbrev pub IsSettings : SettingsFile → Type 0
IsSettings settings = (settings.peer_id < 2 ^ 16) × IsLocal settings.local

new_routed : (list : PeerList) (local : LocalTypes) → IsRouted list (director_for local)
unfolding director_for
new_routed list (Settings.layer2 network_interface) = tt
new_routed list (Settings.layer3 tun_ip) = tt

new-IsTunIp : (local : LocalTypes) → IsLocal local → IsTunIp (tun_ip_for local)
new-IsTunIp (Settings.layer2 network_interface) h = tt
new-IsTunIp (Settings.layer3 tun_ip) h = h

new-IsSafe :
    (settings : SettingsFile) (interface_logger : Option (Sink LogEntry))
    (to_remotes : Sink OutgoingUdpPacket) (to_local : Sink Bytes) (now : ℕ)
    → IsSettings settings
    → IsLogging interface_logger
    → IsOpen to_remotes
    → IsOpen to_local
    → IsSafe now (State.new settings interface_logger to_remotes to_local now)
unfolding State.new
new-IsSafe settings interface_logger to_remotes to_local now h l r o = record {
  list = Validity.new-IsValid (some settings.peers) now;
  routed = new_routed (PeerList.new (some settings.peers) now) settings.local;
  remotes = r;
  local = o;
  logging = l;
  own_id = h.0;
  own_ip = new-IsTunIp settings.local h.1;
}

module _ (codec : Bincode) (slicer : SlicedPacket) (law : IsBincode codec) where
  step-IsSafe :
      (now : ℕ) (event : Event) (cm : ConnectionManager)
      → IsEvent event
      → IsSafe now cm
      → Returns (IsSafe now) (step codec slicer now event cm)
  unfolding step
  step-IsSafe now (new_raw_udp_packet (some raw)) cm e s =
      handle_udp_packet-IsSafe codec slicer law now raw cm s
  step-IsSafe now (new_raw_udp_packet none) cm e s = e
  step-IsSafe now (new_packet_from_local (some bytes)) cm e s =
      handle_packet_from_local-IsSafe codec law now bytes e slicer cm s
  step-IsSafe now (new_packet_from_local none) cm e s = e
  step-IsSafe now global_sequencer_tick cm e s = handle_sequencer_tick-IsSafe now cm s
  step-IsSafe now maintenance_tick cm e s = handle_maintenance_tick-IsSafe now cm s
  step-IsSafe now keepalive_tick cm e s = handle_keepalive-IsSafe codec now cm law s

  run-IsSafe :
      (now : ℕ) (events : List (ℕ × Event)) (cm : ConnectionManager)
      → IsSchedule now events
      → IsSafe now cm
      → Returns (λ after. (t : ℕ) × IsSafe t after) (run codec slicer events cm)
  unfolding run
  run-IsSafe now [] cm h s = (now, s)
  run-IsSafe now ((t, event) ∷ events) cm h s =
      >>=-Returns (IsSafe t) (λ after. (t : ℕ) × IsSafe t after) (step codec slicer t event cm)
        (run codec slicer events) (step-IsSafe t event cm h.1 (IsSafe-mono now t cm h.0 s))
        (λ after. run-IsSafe t events after h.2)

  -- From `new` on, with settings in range, open channels and a file that takes its lines, a clock that
  -- does not go back and no channel closed, every sequence of events is handled without a panic and
  -- leaves a valid state, whatever the datagrams and frames hold, where bincode is as documented.
  pub run-Returns :
      (settings : SettingsFile) (interface_logger : Option (Sink LogEntry))
      (to_remotes : Sink OutgoingUdpPacket) (to_local : Sink Bytes) (now : ℕ)
      (events : List (ℕ × Event))
      → IsSettings settings
      → IsLogging interface_logger
      → IsOpen to_remotes
      → IsOpen to_local
      → IsSchedule now events
      → Returns
          (λ after. (t : ℕ) × IsSafe t after)
          (run codec slicer events (State.new settings interface_logger to_remotes to_local now))
  run-Returns settings interface_logger to_remotes to_local now events h l r o schedule =
      run-IsSafe now events _ schedule
        (new-IsSafe settings interface_logger to_remotes to_local now h l r o)
