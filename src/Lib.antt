-- ===== src/Lib.antt =====
-- rotor-http: HTTP/1.x messages, and the server's and the client's side of a connection.
--
-- The program. A connection of the server is a state machine over a byte stream
-- (src/server/parser.rs, `Parser`): it reads the head of a request, decides from the headers how
-- the body is framed, reads the body whole or in parts, calls a handler (the trait `Server` of
-- src/server/protocol.rs) with a response to build, and waits for the handler or goes on with the
-- next request. A response (src/server/response.rs) wraps a message under construction
-- (src/message.rs), a state machine of its own over the output buffer. The client
-- (src/client/parser.rs, `Parser`) is such a state machine too: it connects, asks the trait
-- `Client` of src/client/protocol.rs for a task, sends the request that a `Requester` builds
-- (src/client/request.rs, the same message), reads the head and the body of the response, and uses
-- the connection again when both are whole. src/headers.rs knows header names and tokens,
-- src/version.rs the versions, src/recvmode.rs how a handler wants a body.
--
-- The files.
--   Prelude    names passed on, Boolean tests, lists, calls that may panic (`Outcome`), checked
--              arithmetic on 64 bits and slices.
--   Std        what the code uses of Rust's library: case folding, splitting, printing and parsing
--              numbers, UTF-8.
--   Buffer     the buffer of rotor_stream as a record of operations with its laws.
--   Stream     what both parsers take from rotor_stream and httparse: expectations, chunk sizes, a
--              stream of chunks.
--   Version, RecvMode, Headers    src/version.rs, src/recvmode.rs, src/headers.rs.
--   Message    src/message.rs, one definition per method. Message/Calls runs any sequence of
--              methods; Message/Automaton is the protocol as a relation; Message/Payload sends
--              bodies, against the decoder of Message/Payload/Dechunk; Message/Parts says
--              what each method writes and Message/Output what a run has written;
--              Message/Silent and Message/Lengths follow a message through a run.
--   Server     src/server: Error, Body, Response (with the error page), Protocol (the handler and the
--              other parameters), Scan (`scan_raw_request`), Parser (the states and intents;
--              Parser/Head and Parser/Reading are `bytes_read`, Parser/Events the other events,
--              Parser/Decode, Parser/Chunks and Parser/Buffered the reading of chunked bodies, Parser/Whole
--              and Parser/Trickle that of bodies of declared length, Parser/Gather, Parser/Gathered
--              and Parser/Overrun that of chunked bodies in parts, Parser/Demand what is asked for,
--              Parser/Refusals the answers to bad heads, Parser/Limits and Parser/Safety what holds
--              over all events, Parser/Phase, Parser/Outcomes and Parser/Lifecycle the steps of a
--              connection, Parser/Closing and Parser/LastRequest its end; Session a connection over
--              many requests).
--   Client     src/client: Error, Head, Request, Protocol (the handlers and the other parameters),
--              Scan (`scan_headers` of src/client/parser.rs), Parser (the states and intents;
--              Parser/Head and Parser/Reading are `parse_headers`, `maybe_new_request` and
--              `bytes_read`, Parser/Events the events, Parser/Chunks and Parser/Buffered the reading
--              of chunked responses, Parser/Arrivals and Parser/Repeats of responses in parts,
--              Parser/Phase and Parser/Lifecycle the steps of a connection, Parser/Safety and
--              Parser/Limits what holds over its events; Session a connection whose events follow from
--              what it asks for).
--   Exchange   a message of src/message.rs that sends a body, and the server or the client that reads
--              it: Wire (the chunks on the wire), Bodies (both ways); and Visit, the client of Fetch
--              at the server of HelloWorld.
--   TodoBackend   examples/todobackend.rs, a handler: Store (the database), Handler (the requests),
--              Answers and Requests (what it sends and keeps), Connection (the handler behind a
--              connection of the server).
--   HelloWorld   examples/hello_world_server.rs, a handler: Pages (what it sends), Visits (the
--              requests of a connection).
--   TwoServers   examples/two_servers.rs, two handlers on one context: Incr, Get, Visits (requests to
--              both).
--   Fetch      examples/client.rs, the handlers of a client: Sending (the request that it writes), Page
--              (its connection from the start to the end).
--   Tests      the theorems at concrete inputs.
--
-- How the code is modelled. A method takes the state and returns the next one; `panic!`, `assert!`,
-- `unwrap`, `unreachable!`, `unimplemented!`, a slice out of range and an overflow (checked, as in
-- debug builds) are the outcome `panic`. Text and byte slices are lists of byte values.
-- `bytes_read` is cut into one definition per arm. A 64-bit number is a natural number; sums that
-- the code forms from numbers of a peer are checked, positions inside the input are not, since the
-- input is in memory. `usize` has 64 bits. `write!` is one write of the whole text. Error payloads
-- that nothing reads are left out.
--
-- Parameters. The buffer (`BufferOps`, with `BufferLaws`), the handler, the header parser and the
-- chunk size parser of httparse, the clock and the timeouts (`Env`, one of the server and one of
-- the client), that httparse reads a size printed in hexadecimal (`ReadsHex`) and the head of a
-- request whatever follows it (`Readable`), and the transport's answer to an expectation
-- (`Delivery`). The handler is any functions that may change the response
-- and the scope; `Collects` is one that keeps the parts of a body. serde_json, and the order of a
-- HashMap, are the record `Json` of the todo list; the crate url is the record `UrlOps`. Of a response,
-- `Readable` says that the transport finds the end of its head and that httparse reads it
-- (`ReadsHead` for those of the greeting server).
--
-- Fuel. `dechunk` and `feed` recurse on fuel: one unit for each chunk and one for the end, and
-- `rounds` gives the rounds of a stream, two for each chunk and one for the last size line.
-- `trickle` and `arrive` recurse on the list of arrivals. `serve` takes one unit for each event,
-- and `events` gives two for each request: its head, and its empty body. `run` of the client takes
-- one unit for each event; the theorem on it says how many there are.
--
-- Not modelled: threaded.rs, threaded_reuse_port.rs and threaded_with_shared_counter.rs of the
-- examples, which are the greeting example once more with other start-up code (the last with an
-- atomic counter), and the `main` of all examples;
-- `connect_tcp`, which opens a socket; the two methods of `Requester` that nothing calls (timeout
-- and wakeup); logging, the `fatal` of the server, which only logs, and the descriptions of errors.
pub mod Prelude
pub mod Std
pub mod Buffer
pub mod Stream
pub mod Version
pub mod Headers
pub mod Message
pub mod RecvMode
pub mod Server
pub mod Client
pub mod Exchange
pub mod TodoBackend
pub mod HelloWorld
pub mod TwoServers
pub mod Fetch
pub mod Tests
