-- ===== src/Xds.antt =====
-- controlplane/src/xds/: what the control plane answers to an Envoy, and what it keeps of its messages.
-- A snapshot's resources and the messages are those of the generated protocol code.
pub mod Server
pub mod Resources
pub mod Builders
pub mod Stream
pub mod Snapshot
