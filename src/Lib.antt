-- ===== src/Lib.antt =====
-- A model of mpconn, a program that tunnels packets between peers over several network paths at
-- once, and proofs about it.
--
-- The program (src/main.rs) is three tasks that talk over channels. The local manager reads packets
-- from a local interface, Ethernet frames (layer 2) or IP packets (layer 3), and writes packets to it.
-- The connection manager numbers each packet for each peer that the traffic director picks, and sends
-- a copy to every known address of the peer; from the copies that it receives, the peer's sequencer
-- takes the first of each number and gives them out in order. The remote manager has a task for each
-- network path, which sends every datagram of the connection manager and receives from its socket.
--
-- Which file models what:
--   Base           shared names; Base/Faults: code that returns or panics; Base/HashMap and
--                  Base/BTreeMap: the collections of std as association lists and sorted lists
--   Net            the addresses of std::net
--   Messages       src/messages.rs and src/internal_messages.rs
--   Settings       src/settings.rs, the types
--   Sink           the sending half of a channel, a log file
--   Bincode        the crate bincode: a parameter, with what its documentation promises
--   Sequencer      src/sequencer.rs; Deliver is the loop of src/connection_manager.rs over it
--   PeerList       src/peer_list.rs
--   TrafficDirector  src/traffic_director.rs, with the slices of etherparse as a parameter
--   ConnectionManager  src/connection_manager.rs: State has the fields and what the handlers share,
--                  Incoming handle_udp_packet, handle_incoming_packet, handle_incoming_keepalive and
--                  handle_instant_keepalive, Outgoing handle_packet_from_local, Timers the three timers
--                  of run with handle_keepalive, Run the select! of run; the rest are proofs, among them
--                  Loops, two managers with a network between them
--   Socket         interface_to_ipaddr and make_socket of src/remote.rs
--   Remote         UDPremote and UDPLz4Remote of src/remote.rs
--   RemoteManager  src/remote_manager.rs
--   AsyncPcap      src/async_pcap.rs
--   Local          src/local.rs, with the two halves of the interface
--   LocalManager   src/local_manager.rs
--   Main           src/main.rs: Start up to the tasks, Supervision the wait for them
--   Tests          concrete runs, the unit tests of src/sequencer.rs, and the theorems at concrete
--                  values
--
-- How state and operations correspond. A struct is a record and a method that changes it a function to
-- the new record, with the source's names. Code that can panic is an Outcome: done or panic, the fault
-- naming the unwrap. A loop with select! is a function over a list of events, one for each branch, in
-- the order in which the branches are taken: each such list is an interleaving, and the theorems are
-- for all of them. A mutable borrow of a peer's sequencer is get_peer_sequencer, and
-- set_peer_sequencer where the borrow ends.
--
-- Numbers are natural numbers. The sequence number and the transmit counter wrap at 2^64, as u64 does
-- in a release build. Theorems on the order of packets ask for numbers below the last u64, that is
-- for fewer than 2^64 packets to a peer. Times are nanoseconds since the epoch. A handler takes one
-- reading of the clock as an argument and no time: where the source reads the clock again inside a
-- handler, as the tick of the sequencers does for each peer, the model uses the same reading.
--
-- The interface log is a file behind a buffer. Where the file fails, the source panics at the flush or
-- at a write that empties the buffer, the model at the first write or flush: theorems on runs without
-- a panic ask for a file that takes its lines.
--
-- The loop over a sequencer is recursion on fuel. The fuel is the length of the queue, and each round
-- takes a packet off: the loop in closed form, without fuel, is equal to it, so the fuel never runs out.
--
-- A HashMap is a list in the order in which it is iterated. Rust leaves that order open; here a new key
-- comes last. No theorem but those that name a list of peers or of addresses depends on it.
--
-- Parameters: bincode, etherparse, lz4_flex, the operating system's answers (sockets, libpcap, the tun
-- device, network interfaces), whether a channel or file takes what it is given, and in Main the
-- parsing of the settings by serde_json, the command line of clap and the file system. Not modelled:
-- logging other than the interface log, the Arc around the connection manager, which nothing shares,
-- the capacity of the channels (128), and the scheduling of tokio beyond the order of events.
pub mod Base
pub mod Net
pub mod Messages
pub mod Sequencer
pub mod Settings
pub mod PeerList
pub mod TrafficDirector
pub mod Sink
pub mod Bincode
pub mod ConnectionManager
pub mod Socket
pub mod Remote
pub mod RemoteManager
pub mod AsyncPcap
pub mod Local
pub mod LocalManager
pub mod Main
pub mod Tests
