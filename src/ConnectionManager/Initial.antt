-- ===== src/ConnectionManager/Initial.antt =====
-- The state that `ConnectionManager::new` of src/connection_manager.rs makes, field by field.
use mpconn.Base.{ℕ, ◌≡◌, refl, Option, none, some, []}
use mpconn.Messages.{Bytes, OutgoingUdpPacket}
use mpconn.Net.{Ipv4Addr}
use mpconn.PeerList
use mpconn.PeerList.{PeerList}
use mpconn.Settings.{SettingsFile, LocalTypes}
use mpconn.Settings
use mpconn.Sink.{Sink}
use mpconn.TrafficDirector.{DirectorType, layer2, layer3, new_layer2, new_layer3}
use mpconn.ConnectionManager.State
use mpconn.ConnectionManager.State.{ConnectionManager, LogEntry, new, director_for}

-- A director of the layer of the settings that knows no address.
abbrev pub KnowsNothing : LocalTypes → DirectorType → Type 0
KnowsNothing (Settings.layer2 network_interface) (layer2 td) =
    ([] ≡ td.mac_table) × ([] ≡ td.peerid_table)
KnowsNothing (Settings.layer3 tun_ip) (layer3 td) = [] ≡ td.routing_table
KnowsNothing (Settings.layer2 network_interface) (layer3 td) = ⊥
KnowsNothing (Settings.layer3 tun_ip) (layer2 td) = ⊥

-- Only a program of layer 3 has a tunnel address.
abbrev pub IsTunnelAddress : LocalTypes → Option Ipv4Addr → Type 0
IsTunnelAddress (Settings.layer2 network_interface) address = none ≡ address
IsTunnelAddress (Settings.layer3 tun_ip) address = some tun_ip ≡ address

-- The peers of the settings, an empty director, timers of 5 s, 1 ms and 10 s, and the channels that
-- it was given. The log can be any.
pub record IsManagerFor (settings : SettingsFile) (to_remotes : Sink OutgoingUdpPacket)
    (to_local : Sink Bytes) (now : ℕ) (cm : ConnectionManager) : Type 0 where
  pub remotes : to_remotes ≡ cm.udp_output_broadcast_to_remotes
  pub local : to_local ≡ cm.packets_to_local
  pub peers : PeerList.new (some settings.peers) now ≡ cm.peer_list
  pub director : KnowsNothing settings.local cm.traffic_director
  pub own_id : settings.peer_id ≡ cm.own_peer_id
  pub own_ip : IsTunnelAddress settings.local cm.own_tun_ip
  pub maintenance : 5_000_000_000 ≡ cm.maintenance_interval
  pub sequencers : 1_000_000 ≡ cm.global_sequencer_interval
  pub keepalives : 10_000_000_000 ≡ cm.keepalive_interval

director_for-KnowsNothing : (local : LocalTypes) → KnowsNothing local (director_for local)
unfolding director_for new_layer2 new_layer3
director_for-KnowsNothing (Settings.layer2 network_interface) = (refl, refl)
director_for-KnowsNothing (Settings.layer3 tun_ip) = refl

KnowsNothing-director_for :
    (local : LocalTypes) (td : DirectorType) → KnowsNothing local td → director_for local ≡ td
unfolding director_for new_layer2 new_layer3
KnowsNothing-director_for (Settings.layer2 network_interface) (layer2 td) (macs, ids) =
    λ i. layer2 (record { mac_table = macs i; peerid_table = ids i })
KnowsNothing-director_for (Settings.layer3 tun_ip) (layer3 td) routes =
    λ i. layer3 (record { routing_table = routes i })
KnowsNothing-director_for (Settings.layer2 network_interface) (layer3 td) h = absurd h
KnowsNothing-director_for (Settings.layer3 tun_ip) (layer2 td) h = absurd h

tun_ip_for-IsTunnelAddress : (local : LocalTypes) → IsTunnelAddress local (State.tun_ip_for local)
tun_ip_for-IsTunnelAddress (Settings.layer2 network_interface) = refl
tun_ip_for-IsTunnelAddress (Settings.layer3 tun_ip) = refl

IsTunnelAddress-tun_ip_for :
    (local : LocalTypes) (address : Option Ipv4Addr)
    → IsTunnelAddress local address
    → State.tun_ip_for local ≡ address
IsTunnelAddress-tun_ip_for (Settings.layer2 network_interface) address h = h
IsTunnelAddress-tun_ip_for (Settings.layer3 tun_ip) address h = h

module _ (settings : SettingsFile) (to_remotes : Sink OutgoingUdpPacket) (to_local : Sink Bytes)
    (now : ℕ) where
  pub new-IsManagerFor :
      (log : Option (Sink LogEntry))
      → IsManagerFor settings to_remotes to_local now (new settings log to_remotes to_local now)
  unfolding new
  new-IsManagerFor log = record {
    remotes = refl;
    local = refl;
    peers = refl;
    director = director_for-KnowsNothing settings.local;
    own_id = refl;
    own_ip = tun_ip_for-IsTunnelAddress settings.local;
    maintenance = refl;
    sequencers = refl;
    keepalives = refl;
  }

  pub IsManagerFor-new :
      (cm : ConnectionManager)
      → IsManagerFor settings to_remotes to_local now cm
      → new settings cm.interface_logger to_remotes to_local now ≡ cm
  unfolding new
  IsManagerFor-new cm m =
      let td = KnowsNothing-director_for settings.local cm.traffic_director m.director in
      let ip = IsTunnelAddress-tun_ip_for settings.local cm.own_tun_ip m.own_ip in
      λ i. record {
        interface_logger = cm.interface_logger;
        udp_output_broadcast_to_remotes = m.remotes i;
        packets_to_local = m.local i;
        peer_list = m.peers i;
        traffic_director = td i;
        own_peer_id = m.own_id i;
        own_tun_ip = ip i;
        maintenance_interval = m.maintenance i;
        global_sequencer_interval = m.sequencers i;
        keepalive_interval = m.keepalives i;
      }
