-- ===== src/Lib.antt =====
-- ColonyFS is a file system whose files are cut into chunks. The chunks lie on chunkservers, and
-- the attributes of files and the places of chunks in a distributed hash table. A client mounts it
-- through FUSE and keeps both in caches, which are flushed later.
--
-- The parts, each with the code that it models:
--   Storage/Metadata, Storage/Chunk   names of chunks and chunks (src/storage/basic_metadata.*,
--     chunk_metadata.*, chunk_data.*)
--   Storage/File, Storage/Db          the index of a chunkserver (src/storage/file.*, db.*):
--     `subscript` is operator[], `call` is operator(); what is assigned through the reference of
--     operator[] is written back by `assign` and `put_file`
--   Storage/Util                      deposit_chunk and retrieve_chunk (src/storage/util.cpp), over
--     boost::filesystem and the file streams as a parameter (Storage/FileSystem). Whether a write
--     goes through, and how much readsome gives, is left open: theorems that need it say so
--   Cache/Basic, Cache/Front          basic_cache and cache (src/cache/basic_cache.hpp, cache.hpp),
--     over the policy as a parameter (Cache/Policy). Cache/Heap has the objects that the pointers
--     denote: `whole` owns its objects, and a deleted object is not there any more
--   Cache/Threads                     cache.hpp with several threads: a relation whose steps are
--     one call of basic_cache or of the policy, or one access through a pointer, by any thread.
--     Cache/Threads/Atomic goes back to the functions of Cache/Front
--   Sink/Copy, Sink/Bytes, Sink/Data  aggregator<chunk_data> (src/api/aggregator.hpp): the loop
--     `copy`, what one round does to bytes, and the sink's operations over a cache of chunks
--   Dht/Values                        the values of the hash table (src/xmlrpc/values.hpp,
--     src/algo/ValueFactory.hpp), over boost::archive as a parameter
--   Dht/Harmony                       the client of the hash table (src/xmlrpc/harmony.*), over the
--     XML-RPC server and boost::hash as parameters
--   Dht/Policies                      MetadataOnFlush and DataOnFlush (src/cache/policy/), and
--     CSScheduler (src/algo/CSScheduler.hpp)
--   Fuse/Attribute, Fuse/State, Fuse/Tree, Fuse/Io   the handlers (src/fuse/colonyfs_fusexx.*,
--     src/xmlrpc/attribute.*): State has both sinks, over one network, and the flushes that wait;
--     Tree works on attributes, Io on bytes. `entry` is operator[] of the metadata sink, `lookup`
--     its operator(); a handler returns its status and what it puts into the caller's buffers
--   Fuse/Sound                        what the file system of src/exec/mount.colonyfs.cpp comes to: a
--     relation whose steps are the requests, the runs of waiting flushes, and what else becomes of
--     the network. Fuse/Update has what a handler does to one attribute, Base/Keeps one rule for
--     each way in which a handler is put together
--   Intercom/Framing, Intercom/Chunkserver   the messages on a socket (src/intercom/connection.hpp),
--     over boost::archive as a parameter, and the server, its requests and how it joins a swarm
--     (src/intercom/server.cpp, chunkserver_harmony.cpp, user_harmony.hpp): a connection is the
--     bytes that go to the server and those that come back
--   Intercom/Service, Intercom/Startup   the connections that a server takes one after another, and
--     the constructors of src/api/chunkserver_api.cpp and chunkserver_harmony
--   Intercom/Client                   how a client finds an address of a host that accepts
--     (src/intercom/client_mt.hpp), over the resolver and the sockets as a parameter
--   Intercom/Network                  what a client sees of the others: the hash table, and a
--     chunkserver for each host name, and what a connection to one comes to
--   Intercom/Network/Transfers        user_harmony (src/intercom/user_harmony.hpp, client_mt.hpp):
--     its calls begin transfers, which a thread completes later, over the chunks of the client;
--     Network/Latest and Network/Unreached have what the chunk policy comes to over it
--   Intercom/Chunkserver/Joins        hosts that join one swarm at the same time: a step relation
--     whose steps are the two calls of the hash table in chunkserver_harmony::init
--   Parsers                           src/parsers/, over boost::program_options as a parameter
--   Controller/NetworkDb              src/controller/network_db.* and
--     src/storage/network_metadata.hpp, over boost::multi_index as a parameter
--   Base                              numbers, maps, and how a call ends: Base/Outcome has `raise`
--     for an exception, `blocked` for a wait that never ends, `undefined` for a failed assertion
--     or a touch of memory that is not the program's
--   Tests                             each theorem at a concrete input
--
-- The data sink reads and writes chunks through a cache whose policy (Dht/Policies) asks the hash
-- table which chunkserver has a chunk; the chunkserver (Intercom) keeps it by Storage/Util.
--
-- A call that changes state is a function from the state to its end and the new state, so what was
-- written before an exception stays written. Outside of Cache/Threads, Intercom/Network/Transfers
-- and Intercom/Chunkserver/Joins calls run one after another: a key's spin mutex is held for one
-- call only. A size_t is a number below 2^64 and its sums wrap; an int is a ℤ of 32 bits. The loop
-- of `copy` runs through the rounds that its bounds give, so it needs no fuel. The retry loop of
-- the hash table's client has no bound in the source: it runs on fuel, and without an answer it is
-- `blocked`; a server that is a table (Dht/Harmony/Table) answers the first call.
--
-- A call of the chunkservers' client only begins a transfer, which a thread then completes in one
-- step. The theorems on caches and sinks are over any client; those of Intercom/Network run the
-- policy's calls over the client of Intercom/Network/Transfers, and say when the transfers end.
--
-- Not modelled: other threads than those of a cache, of a client's transfers and of hosts that join
-- a swarm; the two calls on a whole cache while others use it; the sockets below their bytes;
-- logging; what the main functions do besides; and the copies of boost::threadpool and of
-- fusexx.hpp.
pub mod Base
pub mod Storage
pub mod Cache
pub mod Sink
pub mod Dht
pub mod Fuse
pub mod Controller
pub mod Parsers
pub mod Intercom
pub mod Tests
