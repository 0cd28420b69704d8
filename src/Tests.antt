-- ===== src/Tests.antt =====
-- Concrete runs of the model, and the theorems applied to concrete values.
mod Values
mod Codec
mod SequencerRuns
mod UnitTests
mod PeerListRuns
mod DirectorRuns
mod ManagerRuns
mod Peers
mod SendingRuns
mod TrafficRuns
mod NetworkRuns
mod EdgeRuns
mod FailureRuns
mod StartRuns
