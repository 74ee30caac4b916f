-- ===== src/Lib.antt =====
-- raft-recovery: a job queue with crash recovery (a write-ahead log and snapshots) and, on top of it,
-- replication by Raft.
--
-- Clients reach the server, which puts jobs into the controller or, with Raft, into the log of the
-- leader; what a node has committed comes back to its controller as commands. The controller keeps the
-- jobs in a job manager, logs events, hands tasks to a pool of workers, and takes snapshots. The model
-- follows the critical sections: what happens under a mutex is one function from a state to a state.
--
-- Prelude: shared names; Boolean tests, lists, Go's maps as association lists, integers.
-- Types: pkg/types/types.go.
-- JobManager: internal/jobmanager/job_manager.go. The methods are in JobManager, the time is an
--   argument; Indexes runs them as a machine, Lifecycle is on the states of one job, Recovery on
--   Snapshot, PartialSnapshot, Restore and GetExpiredJobs; Spec is the abstract view.
-- Raft: internal/raft. Raft.Log is log.go; Raft.Node has the state of a node and the RPC arguments;
--   Raft.Election has RequestVote, startElection, convertToLeader and the loops; Raft.Replication has
--   AppendEntries, replicateToPeer and updateCommitIndex; Raft.Commands has Propose, applyLogs and
--   Snapshot; Raft.Steps makes them the steps of one machine, and Raft.Cluster makes those of several
--   nodes, with the goroutines that ask for votes, the steps of a cluster. There replication is open: any
--   request may come. In Raft.Cluster.Logs only requests that a leader sent arrive; its modules follow the
--   logs from one leader to all nodes. In Raft.Cluster.Logs.Divergence the replies are closed too. A
--   goroutine or a timer that a critical section starts is an Effect in the result; a goroutine's own
--   critical section is a function (receive_vote, replicate_reply). A panic of the log store is none.
--   Raft.Transport is transport.go.
-- Messages: the messages of api/proto/v1/service.proto, as the handlers and clients build them.
-- Wal: internal/storage/wal. Wal.Event is types.go and checksum.go, Wal.Writer is wal.go: Append in two
--   parts, the rounds of batchWriter, flushBatch, Rotate, Close, Replay; Wal.Split is splitWALFile.
-- Snapshot: internal/snapshot/snapshot_manager.go: Write with the states of the disk through which it
--   passes, Load, WriteWithBackup.
-- Controller: internal/controller. Core has EnqueueJobs, handleResult and timeoutLoop, Dispatch has
--   dispatchLoop, Poll and Acknowledge, Recover has Start's recovery, replayWAL and handleRaftCommand;
--   Saving has takeSnapshot and Stop; Starting has NewController, Start with its goroutines, the rounds of
--   resultLoop and applyLoop, and GetStatus; Commands reads the bytes of a command. History runs the
--   operations after the start as one machine, each whole; Dispatchers interleaves the phases of several
--   dispatchLoops with them; Keeps is what each operation of the job manager keeps, the calls keep.
-- Worker: internal/worker: the pool with its two bounded channels, a worker's round, and in Pool.Remote
--   pollerLoop and ackLoop; Source is grpc_source.go.
-- Server: internal/server/server.go: Registry has registration and heartbeats, Jobs submission and
--   acknowledgement, Polling PollJobs, Peers the calls of other nodes.
-- Cli: internal/cli/cli.go: what run starts, remote and local submission, and what status shows.
-- Metrics: internal/metrics/metrics.go, over the calls of the Prometheus client.
--
-- Bounds. Terms, indexes, attempts and times are natural numbers and do not wrap, except where a message
-- converts them: an attempt to int32 and back, and milliseconds to a duration in 64 bits, as words in
-- two's complement. The number of jobs that a poll asks for does not wrap. Where the source can reach -1
-- (PrevLogIndex, matchIndex, the refusal of Propose) it is an integer. No fuel is used: each loop is a
-- structural recursion on its list or on the count of its rounds.
--
-- Time. dispatchLoop and Poll read the clock once for the deadlines and once for each job; what they read
-- is an argument. Other operations read it once here, also where the source reads it for each job.
--
-- Arguments that stand for code outside the repository: CRC-32, JSON encoding, Prometheus, the outcome of
-- system calls and of log appends, the calls of the gRPC client, the choice of select among ready cases, the
-- duration of the work.
--
-- Not modelled: the commands and output of the command line, generated code, logging, the stubs and
-- examples of the write-ahead log, which do nothing, its gzip compression and its deprecated flush, a
-- restart of a node of Raft, and interleavings inside an operation of the controller that releases its
-- mutex between two phases, except for takeSnapshot and dispatchLoop. In Raft.Cluster.Logs no log is
-- compacted.
pub mod Prelude
pub mod Types
pub mod Messages
pub mod JobManager
pub mod Raft
pub mod Wal
pub mod Snapshot
pub mod Controller
pub mod Worker
pub mod Server
pub mod Cli
pub mod Metrics
