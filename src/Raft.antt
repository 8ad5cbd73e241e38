-- ===== src/Raft.antt =====
-- server/raft: the consensus module.
pub mod Types
pub mod NodeSet
pub mod LogStorage
pub mod CommandLog
pub mod Storage
pub mod JsonText
pub mod ApplyProgress
pub mod ElectionTimer
pub mod SnapshotReceiver
pub mod SnapshotBarrier
pub mod StateMachine
pub mod Node
pub mod ConfigCommand
pub mod RespArray
pub mod Crc32
pub mod Wal
pub mod ReplicatedCommand
