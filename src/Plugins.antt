-- ===== src/Plugins.antt =====
-- The types of controlplane/src/plugins/types.rs. A HashMap is its entries, with the operations of
-- Prelude/Maps. `PluginRequest`, `PluginAccessResult` and `PluginErrorType` stand in ExtAuthz/Events.
pub mod Lua
pub mod Sdk
pub mod Registry
pub mod Vm
pub mod Executor
pub mod Engine
