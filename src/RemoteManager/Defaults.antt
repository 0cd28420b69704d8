-- ===== src/RemoteManager/Defaults.antt =====
-- Which remotes src/remote_manager.rs makes from the settings.
use Prim.Native.String.{String}
use mpconn.Base.{
  ℕ, ap, subst, refl, ◌∙◌, ◌≡◌, Bool, Option, List, [], ◌∷◌, done, ◌>>=◌, bind-done, done-injective,
}
use mpconn.Messages.{IncomingUnparsedPacket}
use mpconn.Net.{Ipv4Addr}
use mpconn.Remote.{AsyncRemote, UdpRemote, udp, udp_lz4, new_udp, new_lz4}
use mpconn.RemoteManager.{Task, unwrap_or_true, make_remote, make_tasks, new}
use mpconn.Settings.{SettingsFile, RemoteTypes}
use mpconn.Settings
use mpconn.Sink.{Sink}
use mpconn.Socket.{Os, make_socket}
use mpconn.Socket.Binding.{IsBound, make_socket-IsBound}

-- A remote that has sent nothing, with a socket that is bound as the settings ask.
abbrev pub IsNew : Os → String → Option Ipv4Addr → ℕ → Bool → UdpRemote → Type 0
IsNew os iface listen_addr listen_port bind_to_device r =
    (iface ≡ r.interface)
    × IsBound os iface listen_addr listen_port bind_to_device r.socket
    × ([] ≡ r.output)

-- The kind that the settings ask for. Without `bind_to_device` the socket is bound to the device.
abbrev pub IsRemoteFor : Os → RemoteTypes → AsyncRemote → Type 0
IsRemoteFor os (Settings.udp iface listen_addr listen_port bind_to_device) (udp r) =
    IsNew os iface listen_addr listen_port (unwrap_or_true bind_to_device) r
IsRemoteFor os (Settings.udp_lz4 iface listen_addr listen_port bind_to_device) (udp_lz4 r) =
    IsNew os iface listen_addr listen_port (unwrap_or_true bind_to_device) r
IsRemoteFor os (Settings.udp iface listen_addr listen_port bind_to_device) (udp_lz4 r) = ⊥
IsRemoteFor os (Settings.udp_lz4 iface listen_addr listen_port bind_to_device) (udp r) = ⊥

-- One task for each remote of the settings, in order, all with the same channel.
abbrev pub AreTasksFor : Os → Sink IncomingUnparsedPacket → List RemoteTypes → List Task → Type 0
AreTasksFor os sink [] [] = Unit
AreTasksFor os sink (dev ∷ devs) (task ∷ tasks) =
    IsRemoteFor os dev task.remote × (sink ≡ task.mpsc_channel) × AreTasksFor os sink devs tasks
AreTasksFor os sink [] (task ∷ tasks) = ⊥
AreTasksFor os sink (dev ∷ devs) [] = ⊥

new_udp-IsNew :
    (os : Os) (iface : String) (listen_addr : Option Ipv4Addr) (listen_port : ℕ)
    (bind_to_device : Bool) (r : UdpRemote)
    → new_udp os iface listen_addr listen_port bind_to_device ≡ done r
    → IsNew os iface listen_addr listen_port bind_to_device r
unfolding new_udp
new_udp-IsNew os iface listen_addr listen_port bind_to_device r e =
    let (socket, made, e1) =
      bind-done (make_socket os iface listen_addr listen_port bind_to_device) _ r e in
    let is = done-injective (record { interface = iface; socket = socket; output = [] }) r e1 in
    (
      ap (λ (x : UdpRemote). x.interface) is,
      (make_socket-IsBound os iface listen_addr listen_port bind_to_device r.socket).0
          (made ∙ ap (λ (x : UdpRemote). done x.socket) is),
      ap (λ (x : UdpRemote). x.output) is,
    )

new_lz4-IsNew :
    (os : Os) (iface : String) (listen_addr : Option Ipv4Addr) (listen_port : ℕ)
    (bind_to_device : Bool) (r : UdpRemote)
    → new_lz4 os iface listen_addr listen_port bind_to_device ≡ done r
    → IsNew os iface listen_addr listen_port bind_to_device r
unfolding new_lz4 new_udp
new_lz4-IsNew = new_udp-IsNew

make_remote-IsRemoteFor :
    (os : Os) (dev : RemoteTypes) (remote : AsyncRemote)
    → make_remote os dev ≡ done remote
    → IsRemoteFor os dev remote
unfolding make_remote
make_remote-IsRemoteFor os (Settings.udp iface listen_addr listen_port bind_to_device) remote e =
    let flag = unwrap_or_true bind_to_device in
    let (r, made, e1) = bind-done (new_udp os iface listen_addr listen_port flag) _ remote e in
    subst (IsRemoteFor os (Settings.udp iface listen_addr listen_port bind_to_device))
      (done-injective (udp r) remote e1)
      (new_udp-IsNew os iface listen_addr listen_port flag r made)
make_remote-IsRemoteFor os (Settings.udp_lz4 iface listen_addr listen_port bind_to_device) remote
      e =
    let flag = unwrap_or_true bind_to_device in
    let (r, made, e1) = bind-done (new_lz4 os iface listen_addr listen_port flag) _ remote e in
    subst (IsRemoteFor os (Settings.udp_lz4 iface listen_addr listen_port bind_to_device))
      (done-injective (udp_lz4 r) remote e1)
      (new_lz4-IsNew os iface listen_addr listen_port flag r made)

make_tasks-AreTasksFor :
    (os : Os) (devs : List RemoteTypes) (sink : Sink IncomingUnparsedPacket) (tasks : List Task)
    → make_tasks os devs sink ≡ done tasks
    → AreTasksFor os sink devs tasks
unfolding make_tasks
make_tasks-AreTasksFor os [] sink tasks e =
    subst (AreTasksFor os sink []) (done-injective [] tasks e) tt
make_tasks-AreTasksFor os (dev ∷ devs) sink tasks e =
    let (remote, made, e1) = bind-done (make_remote os dev) _ tasks e in
    let (rest, more, e2) = bind-done (make_tasks os devs sink) _ tasks e1 in
    subst (AreTasksFor os sink (dev ∷ devs))
      (done-injective (record { remote = remote; mpsc_channel = sink } ∷ rest) tasks e2)
      (
        make_remote-IsRemoteFor os dev remote made,
        refl,
        make_tasks-AreTasksFor os devs sink rest more,
      )

-- The tasks that `RemoteManager::new` starts are one for each remote in the settings, in order: plain or
-- compressed as the settings say, with a socket bound as they say, and to the device where they do not
-- say.
pub new-AreTasksFor :
    (os : Os) (settings : SettingsFile) (sink : Sink IncomingUnparsedPacket) (tasks : List Task)
    → new os settings sink ≡ done tasks
    → AreTasksFor os sink settings.remotes tasks
unfolding new
new-AreTasksFor os settings sink tasks e = make_tasks-AreTasksFor os settings.remotes sink tasks e

IsNew-new_udp :
    (os : Os) (iface : String) (listen_addr : Option Ipv4Addr) (listen_port : ℕ)
    (bind_to_device : Bool) (r : UdpRemote)
    → IsNew os iface listen_addr listen_port bind_to_device r
    → new_udp os iface listen_addr listen_port bind_to_device ≡ done r
unfolding new_udp
IsNew-new_udp os iface listen_addr listen_port bind_to_device r (named, bound, empty) =
    rw ((make_socket-IsBound os iface listen_addr listen_port bind_to_device r.socket).1 bound)
      (λ i. done (record { interface = named i; socket = r.socket; output = empty i }))

IsRemoteFor-make_remote :
    (os : Os) (dev : RemoteTypes) (remote : AsyncRemote)
    → IsRemoteFor os dev remote
    → make_remote os dev ≡ done remote
unfolding make_remote new_lz4 new_udp
IsRemoteFor-make_remote os (Settings.udp iface listen_addr listen_port bind_to_device) (udp r) h =
    let flag = unwrap_or_true bind_to_device in
    ap (λ m. m >>= λ r. done (udp r)) (IsNew-new_udp os iface listen_addr listen_port flag r h)
IsRemoteFor-make_remote os (Settings.udp_lz4 iface listen_addr listen_port bind_to_device)
      (udp_lz4 r) h =
    let flag = unwrap_or_true bind_to_device in
    ap (λ m. m >>= λ r. done (udp_lz4 r)) (IsNew-new_udp os iface listen_addr listen_port flag r h)
IsRemoteFor-make_remote os (Settings.udp iface listen_addr listen_port bind_to_device) (udp_lz4 r)
      h =
    absurd h
IsRemoteFor-make_remote os (Settings.udp_lz4 iface listen_addr listen_port bind_to_device) (udp r)
      h =
    absurd h

AreTasksFor-make_tasks :
    (os : Os) (devs : List RemoteTypes) (sink : Sink IncomingUnparsedPacket) (tasks : List Task)
    → AreTasksFor os sink devs tasks
    → make_tasks os devs sink ≡ done tasks
unfolding make_tasks
AreTasksFor-make_tasks os [] sink [] h = refl
AreTasksFor-make_tasks os [] sink (task ∷ tasks) h = absurd h
AreTasksFor-make_tasks os (dev ∷ devs) sink [] h = absurd h
AreTasksFor-make_tasks os (dev ∷ devs) sink (task ∷ tasks) (made, channel, more) =
    rw
      (
        IsRemoteFor-make_remote os dev task.remote made,
        AreTasksFor-make_tasks os devs sink tasks more,
      )
      (λ i. done (record { remote = task.remote; mpsc_channel = channel i } ∷ tasks))

-- Where there is a socket for each remote, the tasks are started.
pub AreTasksFor-new :
    (os : Os) (settings : SettingsFile) (sink : Sink IncomingUnparsedPacket) (tasks : List Task)
    → AreTasksFor os sink settings.remotes tasks
    → new os settings sink ≡ done tasks
unfolding new
AreTasksFor-new os settings sink tasks h = AreTasksFor-make_tasks os settings.remotes sink tasks h
