-- ===== src/Lib.antt =====
-- touche, a synchronous HTTP/1 library: the bodies of messages, the requests and responses as they are
-- read from and written to a connection, the server's loop over a connection, the connections that a
-- server accepts, and the client with its pool.
--
-- The program's parts and their files:
--   * Io: what the program uses of std::io. A `Stream` is a reader that delivers bytes and then ends or
--     fails, with a bound on what single calls of `read` give; a `Sink` is a writer, with the number of
--     bytes that the peer still takes.
--   * Crates: the third-party crates (http, headers, httparse) as one record of types and functions,
--     with what the proofs rely on as laws in Crates/Laws.
--   * Http: the messages, http::Request and http::Response, by the parts that the program uses.
--   * Body and its children (src/body.rs, src/body/http_body.rs): `BodyInner` is the enum of the same
--     name; a body that owns a stream keeps it as a value. Body/Consume has into_reader, into_bytes and
--     into_chunks, Body/Reader is BodyReader, Body/Chunks is ChunkIterator, Body/Channel is BodyChannel,
--     and Body/From has the conversions.
--     `HttpBody` is the trait, as a record of operations that the writers take. `drop_body` is Drop.
--   * Chunked (src/request.rs, ChunkedReader): `next` is Iterator::next, `read_chunks` its run.
--     Chunked/Capacity has the panic at a size that no vector has room for, as Body/Consume's `try_into_bytes`
--     has; the functions beside them are the runs without it.
--   * Head (src/request.rs, src/response.rs): the loop that reads the head of a message, and the fold
--     over its headers.
--   * Request (src/request.rs) is parse_request, Request/Write is write_request; Response
--     (src/response.rs) is parse_response, Response/Encode and Response/Write are write_response; Wire
--     and Wire/Body have the lines and the framing of bodies that both writers share.
--     Request/Written and Response/Written describe the bytes that are written. Response/RoundTrip and
--     Request/RoundTrip have what the parsers read of them; Head/Sent and the two Parsed are about heads.
--     Request/Closed is about the end of the connection between requests, Request/Behind about a blank line
--     in front of a request. Request/Errors is about requests that announce a body that cannot be read, and
--     Response/Errors about such responses.
--   * Server (src/server.rs, `serve`): `respond` is a round of the loop, Server/Rules has what a request
--     asks for and what the server adds. The service and the clock are parameters. The service returns
--     the connection as the request's body leaves it once it is dropped, which is what the next reader
--     of src/read_queue.rs is handed. Server/Exchange and Server/Pipeline are about requests that stand on the
--     connection one behind the other, Server/Expect and Server/Continue about those that expect a 100,
--     Server/Described about what an answer depends on, Server/Malformed about those that cannot be read.
--   * Server/Builder (src/server.rs): ServerBuilder, TcpAcceptor by the results of its `accept`, and
--     `serve_single_thread` and `make_service` over the connections that come in.
--   * ReadQueue (src/read_queue.rs): `enqueue` is the function of the same name; `step` is Read, BufRead and
--     Drop of a queued reader, by its place in the queue. A step that would block is `none`.
--     ReadQueue/Rounds is how the loop of `serve` uses the queue.
--   * Client (src/client.rs): `send_request` is the function of the same name, Client/Pool is
--     Client::request with the connections that the client keeps, as a function of the authority.
--     Client/Answered has what the client makes of a response that the server wrote, Client/Malformed
--     what it makes of one that cannot be read, and Client/Served puts the client and the server on the two sides of a connection.
--   * Connection (src/connection.rs) and Tls (src/tls.rs): the enum over the kinds of streams and its
--     operations, and the TLS stream that clones share, as a store of Arcs with their owners. A stream is
--     a `Socket`, a record of the operations that are called of it.
--   * Upgrade (src/upgrade.rs): the extension of a response, which is its field `upgrade`.
--   * Examples/Chat (examples/sse-chat.rs): the chat room, its routes, and what its users receive.
--     Examples/Upload (examples/expect-continue.rs): the service that takes uploads up to a length.
--   * Examples/Websocket (examples/websocket-chat.rs): the chat over upgraded connections, with the
--     threads of its users as steps, and the map of its users without their order in
--     Examples/Websocket/Map. Examples/Lines (examples/upgrade.rs): the handler that echoes lines.
--     Examples/Tunnel (examples/tunnel.rs): the proxy and its two threads, as steps.
--   * Examples/Producers (examples/chunked.rs, trailers.rs and sse.rs): the threads that fill bodies.
--     Examples/Compress (examples/compress.rs): a body over another one. Examples/Routes (examples/routes.rs
--     and file.rs): two services.
--   * Tests: a concrete instance of the third-party crates, and the theorems at concrete inputs.
--
-- Fuel: the loops that read lines and chunks run on one more than the number of bytes on the stream, and
-- each of their rounds but the last takes a byte off it. The iterator of chunks runs on one more than a
-- measure that each `next` makes smaller. The loop of the server runs on any fuel, and returns `none` if
-- it does not come to its end within it.
--
-- Numbers are natural numbers. Lengths are below 2 ^ 64 where the source's are u64; usize is taken to have
-- 64 bits.
--
-- Not modelled: `Server::serve` on the thread pool that src/server.rs calls, which is a third-party crate,
-- and what the clones of a service share between its threads; how the two threads of a BodyChannel take
-- turns on the standard library's channel. Timeouts and
-- Nagle's algorithm are options that are set on a socket, without effect in the model, nor does the
-- blocking of a read or the waiting for a lock show. What a reader has read ahead when its connection is
-- handed over does not show. The other programs under examples, which only call the library or count in an
-- i32, the re-exports of src/lib.rs and the build files.
pub mod Base
pub mod Io
pub mod Crates
pub mod Wire
pub mod Chunked
pub mod Body
pub mod Head
pub mod Http
pub mod Response
pub mod Request
pub mod ReadQueue
pub mod Server
pub mod Client
pub mod Tls
pub mod Connection
pub mod Upgrade
pub mod Examples
pub mod Tests
