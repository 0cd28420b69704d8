-- ===== src/ConnectionManager.antt =====
-- src/connection_manager.rs: the task between the local interface and the remotes. `State` has the
-- state, `Incoming` the handlers of what the remotes receive, `Outgoing` that of what the local
-- interface sends, `Timers` the three timers and `Run` the loop over all of them; the other modules
-- are proofs.
pub mod State
pub mod Initial
pub mod Incoming
pub mod Outgoing
pub mod Timers
pub mod Run
pub mod Sends
pub mod Safety
pub mod Receives
pub mod Expiry
pub mod Broadcast
pub mod Tunnel
pub mod Numbering
pub mod Streams
pub mod Reliability
pub mod Announcements
pub mod Datagrams
pub mod Copying
pub mod Network
pub mod Loops
pub mod Origin
pub mod Sources
