-- ===== src/RemoteManager/Failures.antt =====
-- When a task of src/remote_manager.rs ends with a panic.
use mpconn.Base.{
  subst, refl, ◌≡◌, ◌↔◌, All, none, some, List, [], ◌∷◌, done, panic, io_failure,
  not_decompressible, Option-cases, inl, inr, bind-done, done-injective, sym, ◌∙◌,
}
use mpconn.Messages.{Bytes}
use mpconn.Net.{SocketAddr}
use mpconn.Remote.{
  Lz4, received, receive_error, sent, network_unreachable, other, AsyncRemote, udp, udp_lz4,
  write_udp, write, read, get_interface,
}
use mpconn.RemoteManager.{packet, lagged, closed, Event, outgoing, incoming, Task, step, run}
use mpconn.RemoteManager.Traffic.{
  IsHandled, plain_of, wire_of, after_traffic, run-after_traffic, step-after_traffic,
  with_output-IsRemote, writing, reading,
}
use mpconn.Sink.{IsOpen}

module _ (lz4 : Lz4) where
  write_fails :
      (bytes : Bytes) (destination : SocketAddr) (remote : AsyncRemote)
      → write lz4 other bytes destination remote ≡ panic io_failure
  unfolding write write_udp
  write_fails bytes destination (udp r) = refl
  write_fails bytes destination (udp_lz4 r) = refl

  read_fails : (remote : AsyncRemote) → read lz4 none remote ≡ panic io_failure
  unfolding read
  read_fails (udp r) = refl
  read_fails (udp_lz4 r) = refl

  read_nothing : (remote : AsyncRemote) → read lz4 (some receive_error) remote ≡ done none
  unfolding read
  read_nothing (udp r) = refl
  read_nothing (udp_lz4 r) = refl

  read_garbled :
      (bytes : Bytes) (adder : SocketAddr) (remote : AsyncRemote)
      → plain_of lz4 remote bytes ≡ none
      → read lz4 (some (received bytes adder)) remote ≡ panic not_decompressible
  unfolding read
  read_garbled bytes adder (udp r) h = cc
  read_garbled bytes adder (udp_lz4 r) h = rw h refl

  -- A step that returns was on an event that the task handles.
  returned-IsHandled :
      (event : Event) (task after : Task)
      → step lz4 event task ≡ done after
      → IsHandled (plain_of lz4 task.remote) event
  unfolding step
  returned-IsHandled (outgoing (packet p) sent) task after e = tt
  returned-IsHandled (outgoing (packet p) network_unreachable) task after e = tt
  returned-IsHandled (outgoing (packet p) other) task after e =
      let e' = rw (write_fails p.packet_bytes p.destination task.remote) at e in absurd cc
  returned-IsHandled (outgoing (lagged n) result) task after e = tt
  returned-IsHandled (outgoing closed result) task after e = absurd cc
  returned-IsHandled (incoming (some (received bytes adder))) task after e =
      elim (Option-cases (plain_of lz4 task.remote bytes)) [
        | inl garbled ↦ let e' = rw (read_garbled bytes adder task.remote garbled) at e in absurd cc
        | inr found ↦ found
      ]
  returned-IsHandled (incoming (some receive_error)) task after e =
      let e' = rw (read_nothing task.remote) at e in absurd cc
  returned-IsHandled (incoming none) task after e =
      let e' = rw (read_fails task.remote) at e in absurd cc

  returned-All :
      (events : List Event) (task after : Task)
      → IsOpen task.mpsc_channel
      → run lz4 events task ≡ done after
      → All (IsHandled (plain_of lz4 task.remote)) events
  unfolding run
  returned-All [] task after o e = tt
  returned-All (event ∷ events) task after o e =
      let (mid, stepped, e1) = bind-done (step lz4 event task) _ after e in
      let handled = returned-IsHandled event task mid stepped in
      let out = writing (wire_of lz4 task.remote) event in
      let raws = reading (plain_of lz4 task.remote) (get_interface task.remote) event in
      let is =
        done-injective (after_traffic out raws task) mid
          (sym (step-after_traffic lz4 event task handled o) ∙ stepped) in
      let (w, p, i) = with_output-IsRemote lz4 out task.remote in
      (
        handled,
        subst (λ plain. All (IsHandled plain) events) p
            (returned-All events (after_traffic out raws task) after o
              (subst (λ t. run lz4 events t ≡ done after) (sym is) e1)),
      )

  -- As long as the manager takes what it is handed, a task returns from a sequence of events exactly
  -- if it handles each of them: the panics are those of a closed channel, of a send that fails other
  -- than on an unreachable network, of an error on receipt, and of a datagram that a compressed
  -- remote cannot decompress.
  pub run-IsHandled :
      (events : List Event) (task : Task)
      → IsOpen task.mpsc_channel
      → ((after : Task) × (run lz4 events task ≡ done after))
        ↔ All (IsHandled (plain_of lz4 task.remote)) events
  unfolding run
  run-IsHandled events task o = (
    λ (after, e). returned-All events task after o e,
    λ handled. (_, run-after_traffic lz4 events task handled o),
  )
