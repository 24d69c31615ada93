-- ===== src/Lib.antt =====
-- rusty-comms measures inter-process communication: a client sends numbered, time-stamped messages
-- to a server over shared memory, TCP, Unix domain sockets or POSIX queues, and collectors turn the
-- times into latency and throughput figures. This library models the transports' data paths and the
-- collectors, and proves what makes the measurements right: messages arrive complete, in order and
-- with the times that the sender gave them, and the figures are those of the samples.
--
-- Files:
-- Prelude: Boolean tests, lists over native numbers, `anyhow::Result`, extremes of a list.
-- Bytes: little-endian words (`to_le_bytes`), slice copies, and circular byte arrays.
-- Ipc: `Message` and `MessageType` of src/ipc/mod.rs (Message); bincode as a parameter, with the
--   laws that the code relies on (Bincode); a codec that satisfies them (Sample).
-- Shm.Ring: `SharedMemoryRingBuffer` of src/ipc/shared_memory.rs (bulk copies) and of
--   src/ipc/shared_memory_blocking.rs (byte loops). Its theorems: Space (free space), Access and
--   Equiv (the two copies agree), Fifo and Refine (the buffer is a queue of byte strings).
-- Shm.Blocking: `write_data_blocking` and `read_data_blocking` of src/ipc/shared_memory_blocking.rs.
--   Attempts describes one critical section, System any interleaving of them.
-- Shm.Transport: `BlockingSharedMemory` of the same file, which serialises messages into the ring
--   buffer. Exchange is about sending and receiving, Closing about `close_blocking`.
-- Shm.Connection: the retry loops of `SharedMemoryConnection` of src/ipc/shared_memory.rs; Retries
--   has their theorems.
-- Shm.Direct: the single slot of src/ipc/shared_memory_direct.rs; Slot and System as above.
-- Stream: the length-prefixed framing of src/ipc/tcp_socket_blocking.rs,
--   src/ipc/unix_domain_socket_blocking.rs, src/ipc/tcp_socket.rs and src/ipc/unix_domain_socket.rs.
--   Session and Framing are about round trips, Errors about bad input, Writev about the vectored
--   write, Socket about listeners and connections.
-- Queue: `BlockingPosixMessageQueue` of src/ipc/posix_message_queue_blocking.rs over the kernel's
--   queues. Exchange is about sending and receiving with retries, Cleanup about closing.
-- AsyncQueue: `PosixMessageQueueTransport` of src/ipc/posix_message_queue.rs. Retries bounds its loops,
--   Opening is about the client's start, Exchange about sending and receiving, Receiver about the task
--   of `start_multi_server`.
-- Config: `create_transport_config_internal` of src/benchmark.rs and src/benchmark_blocking.rs. Port is
--   about the port, Room about the segment of the computed size under the shared-memory transport.
-- Report: `BenchmarkResults` of src/results.rs and, in Overall, the summary of all results there and in
--   src/results_blocking.rs. Ranking is `max_by` and `min_by`; Summary, Table and Choice hold the
--   theorems.
-- Metrics: src/metrics.rs. Latency, Throughput and Collector are the collectors, Aggregate the
--   combination of workers; Workers and Totals hold the theorems.
-- Text: numbers printed and parsed, `trim`, `splitn` and `lines` on lists of code points.
-- LatencyFile: the file by which the spawned server hands its latencies to the client, written by
--   `write_latency_buffer` of src/main.rs and parsed with `parse_latency_file_line` of
--   src/benchmark.rs. RoundTrip joins the two.
-- Server: the message loops of `run_server_mode_blocking` (src/main.rs; Buffering) and of
--   `handle_client_connection` (src/standalone_server.rs; Handling).
-- Runner: the client of a one-way test, `run_single_threaded_one_way` of src/benchmark_blocking.rs.
--   Measured tells which messages are measured, Pipeline joins client, server and file.
--   MultiThreaded is `run_multi_threaded_one_way` of src/benchmark.rs and its round-trip twin;
--   Reporting and Doubling tell what it counts.
-- Durations: `parse_duration` and `parse_duration_micros` of src/cli.rs; Units has their theorem.
-- Exchanges: the clients that wait for responses: the round-trip and the combined tests of
--   src/benchmark.rs (Timed, Combined) and the round-trip test of src/benchmark_blocking.rs (Answered).
-- Results: `MessageLatencyRecord` of src/results.rs (Record) and the streaming of
--   `BlockingResultsManager` of src/results_blocking.rs. Log is what is to be written, Streaming
--   the files that hold it, Pairing how partial records of a message are joined.
-- Suite: `run` of src/benchmark.rs and src/benchmark_blocking.rs, and the loop over the mechanisms of
--   src/main.rs, over the outcomes of the tests. Measures is about one run, Continues about the loop.
-- Standalone: `connect_blocking_with_retry` (Connect) and the accept loop (Accept) of
--   src/standalone_server.rs; the concurrent client of src/standalone_client.rs (Client), how its
--   workers share out the messages (Workers) and what they record (RoundTrips).
-- Tests modules: runs of the definitions and the theorems at concrete inputs.
--
-- How the code is modelled: `usize` and `u64` are natural numbers with their wrap-around at 2^64
-- written out, and bytes are numbers. A ring buffer's capacity is taken to be at most 2^62, so that
-- its sums of two positions do not wrap, and a serialised message is shorter than 2^32, the range
-- of the length prefix. Code under a mutex is one step, and a wait on a condition variable ends a
-- step: a call is a list of the states that it finds, spurious wake-ups included. A call for which
-- the list is too short is still waiting, and theorems that promise a result say which lists end it.
-- A socket is the bytes that arrive before the peer closes, the bytes written, and whether writes
-- fail. A server's loop is a function of the list of messages that arrive, with what the clocks read
-- and whether a reply can be sent, and the accept loop of the list of what its polls find. An output
-- file is the text in it. The connection retries take fuel: 302 rounds, since the retry interval of
-- 100 ms fits 300 times into the timeout of 30 s.
--
-- Parameters: bincode, serde_json, floating-point numbers and their parser, the HDR histogram, the clock, and the
-- results of system calls. Each of them has a concrete instance in a Tests module or in Ipc.Sample.
--
-- Not modelled: the task structure of the asynchronous stream and shared-memory transports; of the
-- benchmark runners (src/benchmark.rs, src/benchmark_blocking.rs, src/standalone_client.rs) the
-- spawning of processes and threads, the one-way tests that run for a duration, and failing sends of
-- the one-way clients; the printed summary and the description of the host in src/results.rs and
-- src/results_blocking.rs, and failing writes to the output files; logging and the declarations of
-- the command line, which have no state of their own. Failures of the mutex calls are left out, and so is the memory order of
-- the lock-free ring buffer of src/ipc/shared_memory.rs: its operations are taken one after the other.
pub mod Prelude
pub mod Bytes
pub mod Ipc
pub mod AsyncQueue
pub mod Config
pub mod Durations
pub mod Exchanges
pub mod LatencyFile
pub mod Metrics
pub mod Queue
pub mod Report
pub mod Results
pub mod Runner
pub mod Server
pub mod Shm
pub mod Standalone
pub mod Stream
pub mod Suite
pub mod Text
