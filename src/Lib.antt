-- ===== src/Lib.antt =====
-- A model of raft-kv, an implementation of the Raft protocol in C++: the node with its replicated log, the
-- batches that it hands to its application, and the write-ahead log that keeps them.
--
-- The log of a node is a RaftLog (raft-kv/raft/raft_log.cpp). It joins what has reached storage, a
-- MemoryStorage (raft-kv/raft/storage.cpp), with the entries and the snapshot that have not, an Unstable
-- (raft-kv/raft/unstable.cpp). The node (raft-kv/raft/raft.cpp) appends what it receives to it, commits
-- and applies it. As a leader it keeps a Progress of each follower with a window of the messages in
-- flight (raft-kv/raft/progress.cpp), and the reads that wait for a quorum (raft-kv/raft/readonly.cpp).
-- A RawNode (raft-kv/raft/node.cpp) feeds the node with messages and ticks, and hands out a Ready
-- (raft-kv/raft/ready.cpp): what is to be saved, sent and applied. What is saved goes to the WAL
-- (raft-kv/wal/wal.cpp), from which a restarted server reads it back. What is committed is applied to the
-- map of keys to values of a RedisStore (raft-kv/server/redis_store.cpp). The driver of all this is a RaftNode
-- (raft-kv/server/raft_node.cpp), which also replaces the start of the log by a snapshot. The messages of the
-- nodes go through a TransportImpl (raft-kv/transport/transport.cpp): a session of a peer writes them as
-- frames (peer.cpp), and a session of the other server reads them (raft_server.cpp). A client speaks to the
-- store through a RedisSession (raft-kv/server/redis_session.cpp).
--
-- The files, each with the code that it models:
--   Base          the shared names: tests, lists, words, maps, and results with errors
--   Proto         raft-kv/raft/proto.h and proto.cpp; Proto/Size also entry_limit_size of util.cpp
--   Unstable      unstable.h and unstable.cpp; its children state what the operations do
--   Storage       MemoryStorage of storage.h and storage.cpp, likewise
--   RaftLog       raft_log.h and raft_log.cpp, likewise
--   Progress      Progress of progress.h and progress.cpp; Progress/InFlights the class InFlights
--   ReadOnly      readonly.h and readonly.cpp
--   Config        config.h and config.cpp
--   Raft          raft.h and raft.cpp: State the node and send, Replicate what a leader sends and
--                 commits, Peers and Roles the changes of role and the campaign, Follower the handlers
--                 of followers and candidates, Election the start of step (terms and votes), Reads and
--                 Leader what a leader does with a message, Step the rest of step and the ticks,
--                 Members the membership and the states that are shown and loaded, Start the
--                 constructor
--   Ready         ready.h and ready.cpp, with is_must_sync of util.cpp
--   Node          RawNode of node.h and node.cpp; Node/Boot its start with peers
--   Wal           raft-kv/wal/wal.h and wal.cpp: records and files; Wal/Reading read_all, Wal/Saving
--                 save and its parts, Wal/Opening open
--   ByteBuffer    raft-kv/common/bytebuffer.h and bytebuffer.cpp
--   Store         RedisStore of raft-kv/server/redis_store.h and redis_store.cpp
--   Store/Glob    string_match_len and keys of redis_store.cpp
--   Session       RedisSession of raft-kv/server/redis_session.h and redis_session.cpp: Session/Replies the
--                 texts of the replies, Session/Commands the command table, Session/Reading handle_read
--   Transport     raft-kv/transport: proto.h; Transport/Client the ClientSession of peer.cpp,
--                 Transport/Peers its PeerImpl and transport.cpp, Transport/Server the ServerSession of
--                 raft_server.cpp
--   Snapshots     raft-kv/snap/snapshotter.h and snapshotter.cpp: the files of snapshots
--   Driver        RaftNode of raft-kv/server/raft_node.h and raft_node.cpp: one round of
--                 pull_ready_events and its parts; Driver/Starting the constructor and replay_WAL
--   Tests         concrete states and the theorems applied to them
-- A function has the name of its C++ method. A state is a record of the fields of the class, and a
-- method that changes it returns the new record. View modules give the abstract specification: a
-- partial map from log positions to entries (entry_at) and to terms (term_at), and a predicate IsValid.
--
-- Numbers are natural numbers. uint64_t and uint32_t arithmetic wraps round where the code's does (add64,
-- sub64, add32, sub32); the theorems say which sums are taken to fit. LOG_FATAL, a failed assert and
-- undefined behaviour (an index out of range, a null pointer) are the errors of a Result. Loops are
-- recursions on the list or on the number of rounds left. Some loops run on fuel. The loop of step_leader
-- that sends while maybe_send_append returns true has `rounds`, the size of the window and two more, which
-- is enough since each message takes a place in the window or pauses the peer. The loop of read_all over a
-- file has a round for each byte of the file and one more, which is enough since a record has eight bytes
-- at least. The reads of a server's session have as many rounds as there are bytes that came and were not
-- read, since a frame has five bytes at least; those of a client's session likewise, since a line has a
-- byte. The loop of string_match_len has a round for each byte of the pattern and one more, and each round
-- takes a byte of the pattern. A decimal number has twenty digits at most.
--
-- Shared pointers to entries are values: no modelled code changes an entry that two holders share. The
-- lock of MemoryStorage is held for the whole of each call, so a call is one step. A hash map is an
-- association list. A call of the node is a state monad over Result; the random numbers are a given
-- sequence. The packed bytes of msgpack and the checksum of boost are parameters (Codec, SnapshotCodec), and
-- IsLawful and Codes are what is assumed of them: what is unpacked is what was packed, and lengths and
-- checksums fit the headers of the files.
--
-- What boost.asio and hiredis do is given by arguments: the bytes that a read brings and how they are cut
-- into pieces, whether the socket took what it was asked to write, and what the reader of hiredis makes of
-- a line; likewise what boost.filesystem and stringstream make of the name of a file (NameReader). A
-- handler is a function of what has come. The theorems about a session of a peer are about one connection:
-- a session that was closed is replaced by a new one, and its frames are lost. A socket reads the bytes of
-- a write where they lie in the buffer of the session: the session keeps which bytes were handed over
-- (in_flight), and whether put has moved the buffer since (dangling); the end of a write from a buffer
-- that was moved is undefined behaviour. Lengths that the code narrows to int or to uint32_t are narrowed
-- by keys and by send_reply.
--
-- The files of the log are streams of stdio. The content of a WalFile that is written is what its stream
-- was given, which the disk has when the stream was closed in order. A crash may lose the end of it, so the
-- file that a restarted server opens is another one: Wal/Reading/Torn, Wal/Reading/Partial and
-- Driver/Durable are about files that hold only the first bytes. That fwrite takes the bytes of a log is
-- taken for granted, since the server ends at once where it does not. For the file of a snapshot, what
-- fwrite takes and what the file holds after fclose are two arguments of save_snap.
--
-- Left out are log lines (but for what the one of restore_node and the last one of the constructor read)
-- and strings made for them, Ready::equal and the status of a node, which only tests read, and what is
-- input and output: sockets, timers, threads and addresses. string_match_len is modelled with `nocase` 0,
-- as keys calls it. The driver's calls of the transport are listed, its calls of the store, which the
-- store's thread runs in their order, are run at once, and what save_snap of the snapshotter answers is a
-- parameter. A null pointer that read_all leaves among the entries is an error when the
-- server starts. The driver and the log of its node share one storage, which stands in the log.
pub mod Base
pub mod Proto
pub mod Unstable
pub mod Storage
pub mod RaftLog
pub mod Progress
pub mod ReadOnly
pub mod ByteBuffer
pub mod Config
pub mod Raft
pub mod Ready
pub mod Node
pub mod Wal
pub mod Store
pub mod Snapshots
pub mod Session
pub mod Driver
pub mod Transport
pub mod Tests
