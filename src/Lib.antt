-- ===== src/Lib.antt =====
-- Glaive: an HTTP gateway (glaive/) on its own HTTP and connection library (core/).
--
-- The parts that are modelled, and how they meet:
--   - A session reads a body from a stream and writes one to it. `BodyReader`
--     (core/src/session/reader.rs) is in Session/Reader.antt, what each read mode does with the
--     buffer in Session/Reader/Takes.antt, and the reads themselves in Session/Reader/Reads.antt:
--     `read_body` asks for the next piece, `get_sliced_body` cuts it from the buffer through an
--     `Offset` (core/src/session/offset.rs, Session/Offset.antt and Session/KvOffset.antt). The loop
--     of a client that takes the whole body is Session/Reader/Collect.antt. `BodyWriter`
--     (core/src/session/writer.rs) is in Session/Writer.antt and Session/Writer/Writes.antt, the
--     writes of a whole body in Session/Writer/Send.antt. Chunks go out by the vectored writes of
--     core/src/stream/write_vec.rs (Stream/WriteVec.antt).
--   - `Downstream` (core/src/session/downstream.rs) is the session with a client. Its state, headers
--     and keep-alive are in Session/Downstream.antt; `read_request` is in
--     Session/Downstream/Opening.antt with the loop of Session/Heads.antt, the reading of the body and
--     its mode in Session/Downstream/Requests.antt, the writing of a response in
--     Session/Downstream/Responses.antt and the handlers of its tasks in Session/Downstream/Tasks.antt.
--     `Upstream` (core/src/session/upstream.rs), the session with a server, is in Session/Upstream.antt,
--     Session/Upstream/Responses.antt, Session/Upstream/Responses/Opening.antt and
--     Session/Upstream/Requests.antt. Both keep their headers as `RequestHeader` and `ResponseHeader`
--     (core/src/session/request.rs, response.rs and case.rs; Session/Headers.antt and its children),
--     and test them by `Utils` (core/src/session/utils.rs; Session/Lengths.antt and
--     Session/Keepalive.antt). A request's body is kept for a retry in a replay buffer
--     (core/src/session/buffer.rs, Session/Buffer.antt). How the modes that the two sessions choose go
--     together is in Session/Modes.antt and its children.
--   - A process (core/src/service/proxy/duplex.rs, Service/Duplex.antt) joins two sessions: it reads a
--     request, sends its header on, and runs two loops that tell each other by tasks
--     (core/src/session/task.rs, Session/Task.antt) over two channels. Each branch of a `select!` is a
--     function of the state, and Service/Duplex/Steps.antt is the relation of the steps that the
--     loops can take: the client's loop reserves its place in the channel at the start of a round, as
--     in the code, and holds it until a branch is done.
--   - The pool keeps idle connections by their group (core/src/pool/pool.rs): a node with its hot
--     queue is Pool/Node.antt, the pool is Pool/Manager.antt. The least-recently-used list
--     (core/src/pool/lru.rs, Pool/Lru.antt) bounds the connections of each thread, and tells those
--     that it evicts.
--   - The gateway's filter (`request_filter` of glaive/src/proxy.rs, Gateway/Proxy.antt) takes each
--     request through the selection of a cluster (glaive/src/path.rs, Gateway/Path.antt), the
--     whitelist, the rate limits (glaive/src/limiter.rs, Gateway/Limiter.antt) and the
--     authentication (glaive/src/auth.rs, Gateway/Auth.antt), on the state of Gateway/Context.antt.
--     `fail_to_connect` decides on retries, and the headers that a cluster's configuration inserts and
--     removes are in Gateway/Filters.antt.
--   - The clusters, and the map of their prefixes that the selection reads, are built of the
--     configuration (glaive/src/cluster.rs, Gateway/Cluster.antt).
--   - The gateway caches responses (glaive/src/cache.rs, Gateway/Cache.antt): a miss handler collects
--     a body and stores it, a lookup gives a hit handler that reads it, whole or by a range.
--
-- How code corresponds: a struct is a record, an enum a data type, a method a function that takes
-- the state and gives it back with the result. A fallible call gives an `Outcome`: a value, an I/O
-- error, or a panic (Prelude/Results.antt). The one panic that is kept in a state is that of an answer
-- of the gateway whose write to the client fails: `Session` of Gateway/Context.antt has it, no handler
-- goes on after it, and `request_filter` ends in it. `usize` is 64 bits wide and wraps round, as in a release
-- build (Prelude/Words.antt). Bytes and characters are their numbers (Text.antt has what is used of
-- `str`); a hash map is an association list, and where its order matters the order is a parameter
-- (Pool/Queues.antt).
--
-- What is a parameter: tokio's streams, `BytesMut`'s fresh memory, httparse's reader of chunk sizes,
-- the `bytes` crate's buffers (Session/Streams.antt); the http crate's header maps and conversions
-- (Session/Http.antt); httparse's reader of heads, `from_utf8`, the room that a `BytesMut` offers and
-- the date (Session/Platform.antt); crossbeam's queue, the lru and thread_local crates
-- (Pool/Queues.antt); the http crate's parser of URIs, jsonwebtoken's decoder and pingora's
-- rate (the arguments of the gateway's modules), and the making of load balancers (those of
-- Gateway/Cluster.antt); scc's map and the format of pingora's metadata (Gateway/Cache.antt);
-- pingora's headers (Gateway/Filters.antt), and whether its writes to the client succeed
-- (Gateway/Context.antt). Their laws are stated in those records, and
-- Tests/Samples.antt, Tests/Platforms.antt, Tests/Pools.antt, Tests/Gateway.antt,
-- Tests/Filters.antt, Tests/Clusters.antt and Tests/Caches.antt instantiate them.
--
-- Fuel: the loop that reads a head takes a read for each byte up to its limit, and two more;
-- `write_vec_all` loops on fuel, which a session's writes pass on to it: as many polls as there are
-- bytes, and one more, are enough; the client's loop over `read_body` takes one read for each byte
-- and one more; `trim_start_matches` takes the text's length, since each time takes a character at
-- least; `decimal` takes the number; the loop over the hot queue counts down its length, as in the
-- code.
--
-- Not modelled: the interleaving of threads inside one call of the pool (each call runs to its end),
-- the waking of tasks, a branch of a `select!` that is dropped half way, log output, time, the
-- gateway's filters of the cache and its choice of an upstream, the configuration files, and all that
-- only calls the operating system or other services.
pub mod Prelude
pub mod Gateway
pub mod Pool
pub mod Service
pub mod Session
pub mod Stream
pub mod Tests
pub mod Text
