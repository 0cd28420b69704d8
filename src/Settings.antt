-- ===== src/Settings.antt =====
-- src/settings.rs: the settings file, as the program has it after parsing. The parser is that of
-- serde_json, and is not modelled.
use Prim.Native.String.{String}
use mpconn.Base.{ℕ, Bool, Option, List}
use mpconn.Net.{Ipv4Addr, SocketAddr}

pub data LocalTypes : Type 0 where
  layer2 : String → LocalTypes
  layer3 : Ipv4Addr → LocalTypes

-- The fields are `iface`, `listen_addr`, `listen_port` and `bind_to_device`.
pub data RemoteTypes : Type 0 where
  udp : String → Option Ipv4Addr → ℕ → Option Bool → RemoteTypes
  udp_lz4 : String → Option Ipv4Addr → ℕ → Option Bool → RemoteTypes

pub record PeerConfig : Type 0 where
  pub addresses : List SocketAddr
  pub id : ℕ

pub record SettingsFile : Type 0 where
  pub peers : List PeerConfig
  pub keep_alive_interval : ℕ
  pub local : LocalTypes
  pub remotes : List RemoteTypes
  pub peer_id : ℕ
