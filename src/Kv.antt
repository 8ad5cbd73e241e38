-- ===== src/Kv.antt =====
-- server/storage and server/state_machine: the key-value store that the committed commands build.
pub mod MainTable
pub mod DbSlice
pub mod Command
pub mod Machine
pub mod Spec
pub mod Snapshot
pub mod Replica
