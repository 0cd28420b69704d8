-- ===== src/ConnectionManager/Announcements.antt =====
-- What src/connection_manager.rs does with a keepalive that arrives.
use mpconn.Base.{ℕ, ◌<◌, ◌^◌, ◌≡◌, refl, Bool, true, false, Option, none, some, if◌then◌else◌, done}
use mpconn.Bincode.{Bincode, IsBincode, IsTunIp, serialize_unwrap, serialize_unwrap_total}
use mpconn.Messages.{Bytes, Keepalive, keepalive}
use mpconn.Net.{Ipv4Addr, SocketAddr, v4}
use mpconn.PeerList
use mpconn.Sink.{IsOpen}
use mpconn.TrafficDirector.{DirectorType, layer2, layer3, insert_route}
use mpconn.ConnectionManager.State.{ConnectionManager, keepalive_message}
use mpconn.ConnectionManager.Incoming.{
  announce, handle_instant_keepalive, handle_incoming_keepalive,
}
use mpconn.ConnectionManager.Sends.{sent, copies, Carries, send_to_remotes-sent}

-- The director after a keepalive, and whether its sender is answered.
abbrev pub announced : ℕ → Option Ipv4Addr → DirectorType → DirectorType × Bool
announced peer_id tun_ip (layer2 td) = (layer2 td, false)
announced peer_id none (layer3 td) = (layer3 td, false)
announced peer_id (some ip) (layer3 td) =
    (layer3 (insert_route peer_id (v4 ip) td).0, (insert_route peer_id (v4 ip) td).1)

-- The state after a keepalive, before any answer.
abbrev pub after_keepalive : ℕ → Keepalive → SocketAddr → ConnectionManager → ConnectionManager
after_keepalive now k source cm = record cm {
  peer_list = PeerList.add_peer k.peer_id source now cm.peer_list;
  traffic_director = (announced k.peer_id k.tun_ip cm.traffic_director).0;
}

-- And after the answer, which goes to all connections of the peer.
abbrev pub answered : Bytes → ℕ → ConnectionManager → ConnectionManager
answered serialized peer_id cm =
    sent (copies (PeerList.get_peer_connections peer_id cm.peer_list) serialized) cm

module _ (codec : Bincode) (serialized : Bytes) where
  handle_instant_keepalive-answered :
      (peer_id : ℕ) (cm : ConnectionManager)
      → IsOpen cm.udp_output_broadcast_to_remotes
      → serialize_unwrap codec (keepalive (keepalive_message cm)) ≡ done serialized
      → handle_instant_keepalive codec peer_id cm ≡ done (answered serialized peer_id cm)
  unfolding handle_instant_keepalive
  handle_instant_keepalive-answered peer_id cm o e =
      rw e
        (send_to_remotes-sent (PeerList.get_peer_connections peer_id cm.peer_list) serialized cm o)

  answer_new :
      (is_new : Bool) (peer_id : ℕ) (cm : ConnectionManager)
      → IsOpen cm.udp_output_broadcast_to_remotes
      → serialize_unwrap codec (keepalive (keepalive_message cm)) ≡ done serialized
      → (if is_new then handle_instant_keepalive codec peer_id cm else done cm)
        ≡ done (if is_new then answered serialized peer_id cm else cm)
  answer_new true peer_id cm o e = handle_instant_keepalive-answered peer_id cm o e
  answer_new false peer_id cm o e = refl

  announce-answered :
      (peer_id : ℕ) (tun_ip : Option Ipv4Addr) (td : DirectorType) (cm : ConnectionManager)
      → IsOpen cm.udp_output_broadcast_to_remotes
      → serialize_unwrap codec (keepalive (keepalive_message cm)) ≡ done serialized
      → let after : ConnectionManager = record cm {
        traffic_director = (announced peer_id tun_ip td).0;
      } in
        announce codec
          (record { peer_id = peer_id; tun_ip = tun_ip })
          td
          (record cm { traffic_director = td })
        ≡ done
            (if (announced peer_id tun_ip td).1 then answered serialized peer_id after else after)
  unfolding announce
  announce-answered peer_id tun_ip (layer2 td) cm o e = refl
  announce-answered peer_id none (layer3 td) cm o e = refl
  announce-answered peer_id (some ip) (layer3 td) cm o e =
      answer_new (insert_route peer_id (v4 ip) td).1 peer_id
        (record cm { traffic_director = layer3 (insert_route peer_id (v4 ip) td).0 }) o e

-- A keepalive enters its sender in the peer list with the address that it came from, and its tunnel
-- address in the routes of a layer 3 director. If the route is new, a keepalive of this program
-- goes out at once to every connection that the peer then has. Nothing else changes.
pub handle_incoming_keepalive-after_keepalive :
    (codec : Bincode) (now : ℕ) (k : Keepalive) (source : SocketAddr) (cm : ConnectionManager)
    → IsBincode codec
    → IsOpen cm.udp_output_broadcast_to_remotes
    → cm.own_peer_id < 2 ^ 16
    → IsTunIp cm.own_tun_ip
    → let after = after_keepalive now k source cm in
      (serialized : Bytes) × Carries codec serialized
        (keepalive (record { peer_id = cm.own_peer_id; tun_ip = cm.own_tun_ip }))
      × (handle_incoming_keepalive codec now k source cm
          ≡ done (
              if (announced k.peer_id k.tun_ip cm.traffic_director).1
              then answered serialized k.peer_id after
              else after))
unfolding handle_incoming_keepalive
handle_incoming_keepalive-after_keepalive codec now k source cm law o own_id own_ip =
    let (serialized, eq, carries) =
      serialize_unwrap_total codec (keepalive (keepalive_message cm)) law (own_id, own_ip) in
    (
      serialized,
      carries,
      announce-answered codec serialized k.peer_id k.tun_ip cm.traffic_director
          (record cm { peer_list = PeerList.add_peer k.peer_id source now cm.peer_list }) o eq,
    )
