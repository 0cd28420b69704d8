-- ===== src/Tests/FailureRuns.antt =====
-- Runs of the tasks of src/remote_manager.rs and src/local_manager.rs, with and without panics.
use mpconn.Base.{inl, inr, arith, ◌≡◌, ◌↔◌, refl, All, some, List, [], ◌∷◌, done}
use mpconn.LocalManager
use mpconn.LocalManager.{LocalManager}
use mpconn.LocalManager.Packets
use mpconn.LocalManager.Packets.{writer_of, reader_of}
use mpconn.LocalManager.Failures.{run-done}
use mpconn.Messages.{IncomingUnparsedPacket}
use mpconn.Remote.{received, sent, unparsed, write, write_udp, read, get_interface}
use mpconn.RemoteManager
use mpconn.RemoteManager.{Task, incoming, outgoing, packet}
use mpconn.RemoteManager.Transport.{IsAmong, broadcasts, run-IsAmong}
use mpconn.Sink.{extended, put}
use mpconn.RemoteManager.Failures.{run-IsHandled}
use mpconn.RemoteManager.Traffic.{IsHandled, plain_of, after_traffic}
use mpconn.Tests.EdgeRuns.{marking-IsLz4, marking, packed_remote, task, local_task, packets}
use mpconn.Tests.Values.{home, away}

-- The second datagram does not decompress.
abbrev garbled : List RemoteManager.Event
garbled =
    incoming (some (received (0 ∷ 6 ∷ []) away)) ∷ incoming (some (received (9 ∷ []) away)) ∷ []

run-IsHandled_example :
    ((after : Task) × (RemoteManager.run marking garbled task ≡ done after))
    ↔ All (IsHandled (plain_of marking packed_remote)) garbled
run-IsHandled_example = run-IsHandled marking garbled task refl

run-done_example :
    ((after : LocalManager) × (LocalManager.run packets local_task ≡ done after))
    ↔ All
        (Packets.IsHandled (reader_of local_task.local.reader) (writer_of local_task.local.writer))
        packets
run-done_example = run-done packets local_task refl refl

-- Two compressed remotes; the first datagram is lost, and the second arrives twice.
abbrev sending : List RemoteManager.Event
sending =
    outgoing (packet (record { destination = home; packet_bytes = 4 ∷ [] })) sent
    ∷ outgoing (packet (record { destination = home; packet_bytes = 5 ∷ [] })) sent
    ∷ []

abbrev hearing : List RemoteManager.Event
hearing =
    incoming (some (received (0 ∷ 5 ∷ []) away)) ∷ incoming (some (received (0 ∷ 5 ∷ []) away)) ∷ []

abbrev sender_after : Task
sender_after = after_traffic ((0 ∷ 4 ∷ [], home) ∷ (0 ∷ 5 ∷ [], home) ∷ []) [] task

abbrev receiver_after : Task
receiver_after =
    after_traffic [] (unparsed "eth1" (5 ∷ []) away ∷ unparsed "eth1" (5 ∷ []) away ∷ []) task

sends : RemoteManager.run marking sending task ≡ done sender_after
unfolding RemoteManager.run RemoteManager.step write write_udp
sends = refl

hears : RemoteManager.run marking hearing task ≡ done receiver_after
unfolding RemoteManager.run RemoteManager.step read get_interface put
hears = refl

run-IsAmong_example :
    (raws : List IncomingUnparsedPacket) × (receiver_after.mpsc_channel
      ≡ extended raws task.mpsc_channel)
    × All (λ raw. IsAmong raw.bytes (broadcasts sending)) raws
run-IsAmong_example =
    run-IsAmong marking sending hearing task task sender_after receiver_after marking-IsLz4 tt refl
      refl refl sends hears (omega arith, (omega arith, tt)) (inr (inl refl), (inr (inl refl), tt))
