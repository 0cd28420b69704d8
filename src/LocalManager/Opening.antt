-- ===== src/LocalManager/Opening.antt =====
-- When `LocalManager::new` of src/local_manager.rs opens its local interface, and what it starts with.
use mpconn.Base.{
  ◌≡◌, ◌↔◌, refl, ap, subst, ◌∙◌, true, Option, none, some, [], arith, done, bind-done,
  done-injective, check-true,
}
use mpconn.AsyncPcap
use mpconn.AsyncPcap.{Device, Pcap, ReadBuf}
use mpconn.Local
use mpconn.Local.{
  Local, LocalReaders, layer2_reader, layer3_reader, LocalWriters, layer2_writer, layer3_writer,
  OpenAnswers, Tun, TunAnswers, make_tunnel, unwrap_capture,
}
use mpconn.LocalManager.{LocalManager, new}
use mpconn.Messages.{Bytes}
use mpconn.Net.{Ipv4Addr}
use mpconn.Settings.{SettingsFile, LocalTypes}
use mpconn.Settings
use mpconn.Sink.{Sink}

-- Every step of opening the capture succeeds.
abbrev pub Opens : Device → Type 0
Opens device =
    (device.found ≡ true)
    × (device.opens ≡ true)
    × (device.sets_nonblock ≡ true)
    × (device.registers ≡ true)

-- The tun device is made and can be asked for its properties.
abbrev pub Builds : TunAnswers → Type 0
Builds tun =
    (tun.builds ≡ true)
    × (tun.mtu ≡ true)
    × (tun.flags ≡ true)
    × (tun.address ≡ true)
    × (tun.destination ≡ true)
    × (tun.broadcast ≡ true)
    × (tun.netmask ≡ true)

-- A tun device of 1424 bytes with the address of the settings, in a network of 256 addresses.
abbrev pub IsTunFor : Ipv4Addr → Tun → Type 0
IsTunFor tun_ip tun =
    ("" ≡ tun.name)
    × (1424 ≡ tun.mtu)
    × (tun_ip ≡ tun.address)
    × (0xffffffff ≡ tun.broadcast)
    × (0xffffff00 ≡ tun.netmask)
    × ([] ≡ tun.sent)

-- An interface of the layer that the settings ask for, to which nothing was written.
abbrev pub IsOpenedFor : OpenAnswers → LocalTypes → LocalReaders → LocalWriters → Type 0
IsOpenedFor answers (Settings.layer2 network_interface) layer2_reader (layer2_writer pcap) =
    Opens answers.capture × ([] ≡ pcap.sent)
IsOpenedFor answers (Settings.layer2 network_interface) layer2_reader (layer3_writer tun) = ⊥
IsOpenedFor answers (Settings.layer2 network_interface) layer3_reader writer = ⊥
IsOpenedFor answers (Settings.layer3 tun_ip) layer3_reader (layer3_writer tun) =
    Builds answers.tun × IsTunFor tun_ip tun
IsOpenedFor answers (Settings.layer3 tun_ip) layer3_reader (layer2_writer pcap) = ⊥
IsOpenedFor answers (Settings.layer3 tun_ip) layer2_reader writer = ⊥

-- A task with such an interface, the channel, and an empty buffer for the largest packet.
pub record IsLocalManagerFor (answers : OpenAnswers) (settings : SettingsFile) (sink : Sink Bytes)
    (lm : LocalManager) : Type 0 where
  pub opened : IsOpenedFor answers settings.local lm.local.reader lm.local.writer
  pub to_manager : sink ≡ lm.packets_from_local
  pub filled : [] ≡ lm.tun_buf.filled
  pub capacity : 65535 ≡ lm.tun_buf.capacity

new-Opens :
    (device : Device) (pcap : Pcap)
    → AsyncPcap.new device ≡ done (some pcap)
    → Opens device × ([] ≡ pcap.sent)
unfolding AsyncPcap.new
new-Opens device pcap e = ground (arith, e)

make_tunnel-IsTunFor :
    (answers : TunAnswers) (tun_ip : Ipv4Addr) (tun : Tun)
    → make_tunnel answers tun_ip ≡ done tun
    → Builds answers × IsTunFor tun_ip tun
unfolding make_tunnel
make_tunnel-IsTunFor answers tun_ip tun e =
    let (_, builds, e1) = bind-done _ _ tun e in
    let (_, mtu, e2) = bind-done _ _ tun e1 in
    let (_, flags, e3) = bind-done _ _ tun e2 in
    let (_, address, e4) = bind-done _ _ tun e3 in
    let (_, destination, e5) = bind-done _ _ tun e4 in
    let (_, broadcast, e6) = bind-done _ _ tun e5 in
    let (_, netmask, e7) = bind-done _ _ tun e6 in
    let is =
      done-injective
        (record {
          name = "";
          mtu = 1424;
          address = tun_ip;
          broadcast = 0xffffffff;
          netmask = 0xffffff00;
          sent = [];
        })
        tun e7 in
    (
      (
        check-true answers.builds builds,
        check-true answers.mtu mtu,
        check-true answers.flags flags,
        check-true answers.address address,
        check-true answers.destination destination,
        check-true answers.broadcast broadcast,
        check-true answers.netmask netmask,
      ),
      (
        ap (λ (x : Tun). x.name) is,
        ap (λ (x : Tun). x.mtu) is,
        ap (λ (x : Tun). x.address) is,
        ap (λ (x : Tun). x.broadcast) is,
        ap (λ (x : Tun). x.netmask) is,
        ap (λ (x : Tun). x.sent) is,
      ),
    )

IsTunFor-make_tunnel :
    (answers : TunAnswers) (tun_ip : Ipv4Addr) (tun : Tun)
    → Builds answers
    → IsTunFor tun_ip tun
    → make_tunnel answers tun_ip ≡ done tun
unfolding make_tunnel
IsTunFor-make_tunnel answers tun_ip tun (b, m, f, a, d, r, n)
      (name, mtu, ip, broadcast, mask, sent) =
    rw (b, m, f, a, d, r, n)
      (λ i. done (record {
        name = name i;
        mtu = mtu i;
        address = ip i;
        broadcast = broadcast i;
        netmask = mask i;
        sent = sent i;
      }))

unwrap_capture_lem : (o : Option Pcap) (cap : Pcap) → unwrap_capture o ≡ done cap → o ≡ some cap
unwrap_capture_lem none cap e = cc
unwrap_capture_lem (some c) cap e = cc

opened :
    (answers : OpenAnswers) (local : LocalTypes) (l : Local)
    → Local.new answers local ≡ done l
    → IsOpenedFor answers local l.reader l.writer
unfolding Local.new
opened answers (Settings.layer2 network_interface) l e =
    let (o, made, e1) = bind-done (AsyncPcap.new answers.capture) _ l e in
    let (cap, unwrapped, e2) = bind-done (unwrap_capture o) _ l e1 in
    let same = unwrap_capture_lem o cap unwrapped in
    subst (λ (x : Local). IsOpenedFor answers (Settings.layer2 network_interface) x.reader x.writer)
      (done-injective (record { reader = layer2_reader; writer = layer2_writer cap }) l e2)
      (new-Opens answers.capture cap (made ∙ ap done same))
opened answers (Settings.layer3 tun_ip) l e =
    let (tun, made, e1) = bind-done (make_tunnel answers.tun tun_ip) _ l e in
    subst (λ (x : Local). IsOpenedFor answers (Settings.layer3 tun_ip) x.reader x.writer)
      (done-injective (record { reader = layer3_reader; writer = layer3_writer tun }) l e1)
      (make_tunnel-IsTunFor answers.tun tun_ip tun made)

opens :
    (answers : OpenAnswers) (local : LocalTypes) (reader : LocalReaders) (writer : LocalWriters)
    → IsOpenedFor answers local reader writer
    → Local.new answers local ≡ done (record { reader = reader; writer = writer })
unfolding Local.new AsyncPcap.new
opens answers (Settings.layer2 network_interface) layer2_reader (layer2_writer pcap)
      ((f, o, n, r), sent) =
    rw (f, o, n, r)
      (λ i.
        done (record { reader = layer2_reader; writer = layer2_writer (record { sent = sent i }) }))
opens answers (Settings.layer2 network_interface) layer2_reader (layer3_writer tun) h = absurd h
opens answers (Settings.layer2 network_interface) layer3_reader writer h = absurd h
opens answers (Settings.layer3 tun_ip) layer3_reader (layer3_writer tun) (b, h) =
    rw (IsTunFor-make_tunnel answers.tun tun_ip tun b h) refl
opens answers (Settings.layer3 tun_ip) layer3_reader (layer2_writer pcap) h = absurd h
opens answers (Settings.layer3 tun_ip) layer2_reader writer h = absurd h

-- The task starts exactly if its interface opens.
pub new-IsLocalManagerFor :
    (answers : OpenAnswers) (settings : SettingsFile) (sink : Sink Bytes) (lm : LocalManager)
    → (new answers settings sink ≡ done lm) ↔ IsLocalManagerFor answers settings sink lm
unfolding new
new-IsLocalManagerFor answers settings sink lm = (
  λ e.
      let (local, made, e1) = bind-done (Local.new answers settings.local) _ lm e in
      let is =
        done-injective
          (record {
            local = local;
            packets_from_local = sink;
            tun_buf = record { filled = []; capacity = 65535 };
          })
          lm e1 in
      record {
        opened =
            subst
              (λ (x : LocalManager).
                IsOpenedFor answers settings.local x.local.reader x.local.writer)
              is (opened answers settings.local local made);
        to_manager = ap (λ (x : LocalManager). x.packets_from_local) is;
        filled = ap (λ (x : LocalManager). x.tun_buf.filled) is;
        capacity = ap (λ (x : LocalManager). x.tun_buf.capacity) is;
      },
  λ v. rw (opens answers settings.local lm.local.reader lm.local.writer v.opened) (λ i.
      done (record {
        local = lm.local;
        packets_from_local = v.to_manager i;
        tun_buf = record { filled = v.filled i; capacity = v.capacity i };
      })),
)
