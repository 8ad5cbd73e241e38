-- ===== src/Lib.antt =====
-- A model of maxredis, a replicated key-value server, with theorems about its consensus core, the log
-- on disk, and the store that the committed commands build.
--
-- The program runs one RaftNode (server/raft/raft_node.cc) per group. A node owns its hard state
-- (RaftStorage), the mark of what was applied (ApplyProgress), a log (ILogStorage), an election
-- timer and a receiver of snapshots, and it drives a state machine (IStateMachine). Other nodes are
-- reached by RPCs. Every handler holds the node's mutex; a routine that sends RPCs releases it
-- between its critical sections.
--
-- How the model is laid out:
--   Base                 shared names: tests on numbers, 64-bit words, lists, bytes, decimal numbers
--   Raft/Types           server/raft/raft_types.h and the messages of the *_rpc.h headers
--   Raft/LogStorage      server/raft/log_storage.h: the operations of a log, and its contract
--   Raft/CommandLog      server/raft/command_log.cc; Laws proves the contract, Compact is compaction
--   Raft/Storage, Raft/ApplyProgress, Raft/ElectionTimer, Raft/SnapshotReceiver, Raft/StateMachine
--                        the files of server/raft and server/state_machine of these names
--   Raft/ConfigCommand   ConfigChangeCommand of server/raft/command_encoder.cc
--   Raft/RespArray, Raft/ReplicatedCommand
--                        the write commands in server/raft/command_encoder.cc, as bytes of a log entry
--   Raft/Wal, Raft/Crc32 the records of server/raft/wal_writer.cc and the scan of segment files in
--                        server/raft/segment_log_storage.cc; the checksum of server/raft/crc32.h
--   Raft/JsonText        the strings in the file of server/raft/raft_storage.cc; Fields is the whole text
--   Raft/SnapshotBarrier server/raft/snapshot_barrier.h, as interleaved atomic operations, whose
--                        loads may give any value, since the orders are relaxed, acquire and release
--   Raft/Node            the state of a RaftNode and the role transitions, with the children
--     Election           OnRequestVote, StartElection, TryBecomeLeader, BootstrapSingleNode
--     Apply              ApplyCommittedLogsLocked
--     Commit             AdvanceCommitIndexLocked, BeginConfigChange, ReplayUnappliedLogs
--     Follower           OnHeartbeat, OnAppendEntries, OnInstallSnapshot, OnReadIndex, OnTimeoutNow
--     Leader             HeartbeatTickImpl; Reads is ReadIndex, Transfer is StartTransfer
--     Replicate          SubmitEntry up to the append, and the rounds of ReplicateLog
--     GroupCommit        SubmitEntry behind the append, and CoordinatorCommit
--     Steps              the critical sections as steps, and what any sequence of them keeps
--   Kv                   the store behind a node
--     MainTable, DbSlice server/storage/common_types.h and db_slice.cc: the tables of one shard
--     Command            KvStateMachine::ApplyLogEntry over an interface of three operations
--     Machine            the other operations of server/state_machine/kv_state_machine.cc, over shards
--     Spec               one map, which the shards are proved to implement
--     Snapshot           SaveSnapshot and LoadSnapshot, with the file of server/raft/snapshot_writer.cc
--     Replica            a node whose machine is the store: the apply loop over the shards
--   Scenarios            concrete nodes, logs, files and stores, at which the theorems are applied
--
-- A handler is a function from a node to a node and an answer; one that sends RPCs is one function
-- per critical section, which takes the answers as an argument. So an execution of a node is any
-- sequence of steps, in any order. The log and the state machine are parameters: the record
-- LogStorage with its laws, which CommandLog fills, and the record StateMachine. The clock is an
-- argument. Terms, epochs and times wrap at 2^64 where the source counts them up; a step that
-- starts a new term is taken below the last term. The apply loop runs on the distance to the commit
-- index as fuel: each round applies an entry, so the fuel is enough. The scan of a segment runs on the
-- length of the file: each round takes a record off it.
--
-- A committed entry is the bytes of ReplicatedCommand; the node hands it to the record StateMachine,
-- which kv_machine of Kv/Snapshot fills with ApplyLogEntry and LoadSnapshot. XXH64 and SimpleAtoi, which
-- are not in the repository, are parameters. A time is an argument of the operation that reads the
-- clock; operations that read it more than once get the same time.
--
-- Not modelled: the helio framework, the transports and codecs; failing file operations (a write is
-- taken to succeed); the file log, the manifest, and what SegmentLogStorage does besides writing,
-- scanning and cutting its files; the snapshot manager and its meta file; the memory statistics of
-- DbSlice, which nothing reads; the protocol parsers and the service. SetRole, a hook of the tests,
-- is a function but not a step: it clears the vote of the current term.
pub mod Base
pub mod Raft
pub mod Kv
pub mod Scenarios
