-- ===== src/Lib.antt =====
-- RSocket for JavaScript, packages/rsocket-core: what the protocol library does between a transport,
-- which carries bytes, and an application, which sends and receives payloads.
--
-- Parts. A payload of the application starts a stream. `StreamIdGenerator` gives the stream its id,
-- a lease may have to come first (`LeaseHandler`), and the stream's object sends the request, cut
-- into fragments where the connection has a fragment size. A resumable connection keeps each frame
-- that it sends (`FrameStore`). A frame is serialised, behind its length on a transport that has no
-- messages, and deserialised at the other end, where the multiplexer gives it to the stream of its id or
-- makes a responder for a request, and the stream reassembles fragments. A `Deferred` tells its owners
-- once that it is closed.
--
-- Files, and the code they model (paths under packages/rsocket-core/src):
--   Prelude        numbers of JavaScript without fractions, exceptions as results, generators as
--                  lists of yields, lists and tests on native numbers.
--   Bytes          Bytes.ts: reads and writes of big-endian numbers, allocation, copies, ASCII.
--                  `Bytes.Filled` follows a buffer that is written from the left, `Bytes.ReadBack`
--                  what a read finds behind a prefix.
--   Frames         Frames.ts: the frames as records and their union, flags, types and predicates.
--   Codecs         Codecs.ts. `Serialize`, `Size` and `Deserialize` hold one function for each of the
--                  source; `Wire` says what the bytes of each frame are; `Layout` relates it to the
--                  serialisers, `RoundTrip` to the deserialisers; `Stream` is `deserializeFrames`.
--   Fragmenter     Fragmenter.ts: `is_fragmentable`, `fragment`, `fragment_with_request_n`.
--                  `Receive` is the other end, which adds and reassembles frames; `Every` is what
--                  all frames of a payload have in common.
--   Reassembler    Reassembler.ts: `add`, `reassemble`, `cancel`. `Shape` is what a holder stands for.
--   Transfer       payloads on their way over a connection: through Fragmenter.ts, Codecs.ts and
--                  Reassembler.ts, and from one end of a stream to the other (`Exchange` for
--                  request/response, `Items` for request/stream, `Requests` for fire-and-forget,
--                  `Channel` for both directions of a channel).
--   StreamIds      `StreamIdGenerator` of ClientServerMultiplexerDemultiplexer.ts.
--   Resume         `FrameStore` of Resume.ts.
--   Lease          `LeaseHandler` of RSocketSupport.ts.
--   Deferred       Deferred.ts.
--   KeepAlive      `KeepAliveHandler` of RSocketSupport.ts.
--   Streams        what the four kinds of streams share: their calls as events, and the frames that each
--                  makes in the same way.
--   RequestResponse, RequestFnf, RequestStream, RequestChannel
--                  RequestResponseStream.ts, RequestFnFStream.ts, RequestStreamStream.ts and
--                  RequestChannelStream.ts. The file itself is the requester; `Responder` beneath it is
--                  the other end (for fire-and-forget it stands in the same file, for channels
--                  `Serving` goes on with it).
--   Multiplexer    `ClientServerInputMultiplexerDemultiplexer` of ClientServerMultiplexerDemultiplexer.ts:
--                  the registry of streams, with the streams themselves. `Handlers` has the union of
--                  them and `DefaultStreamRequestHandler` of RSocketSupport.ts, `Requester` has
--                  `RSocketRequester`; `Inputs` is what happens to a connection, `Keyed` and `Ids` are
--                  about the ids of the registry, `Routing` says what a frame does to each.
--   Session        `ResumableClientServerInputMultiplexerDemultiplexer` of the same file, which adds the
--                  frame store. `Inputs` is what happens to a session, `Positioned` the frames that have
--                  a position, `Receiving` and `Resuming` the two ends of a connection that is resumed, `Awaiting` the wrapper that waits for RESUME_OK.
--   Connection     `KeepAliveSender` and `DefaultConnectionFrameHandler` of RSocketSupport.ts.
--
-- State and operations. A class is a record of its fields, a method is a function that returns the new
-- record and what it calls: frames that are sent, callbacks, handlers, as events in order. Code that
-- throws returns a `Result`. A field `data` of the source is called `body`; `null` and `undefined` are
-- both `none`. An error, a callback or a handler of the application is its number.
--
-- Bounds and fuel. Numbers are integers, negative ones and NaN included; fractions, infinities and the
-- rounding past 2 ^ 53 are left out. `deserialize_frames` has one round of fuel more than its buffer
-- has bytes, since a round moves by three bytes at least. The loops of the fragmenter have one round
-- more than there are bytes of metadata or data: each round moves by a byte at least if a frame
-- holds more than three bytes. With a fragment size of three or less the loop on metadata goes on for
-- ever, and the model runs out of fuel. The search for a stream id has 2 ^ 30 + 1 rounds, which is
-- more than there are ids of a parity.
--
-- Parameters. `TextCodec` stands for the platform's conversion of text to bytes, of which nothing is
-- assumed but, for one theorem, that a message decodes to what was encoded. The clock is an argument,
-- and so are code and message of an error that a session catches.
-- The application's handler of requests is a function, which gives the signals that it makes before it
-- returns and what it throws; what the application does later comes as calls in any order.
--
-- Not modelled: the connector and the server, which put the parts together, the transports, the RxJS,
-- messaging and GraphQL packages, which are glue over other libraries, and composite metadata.
pub mod Prelude
pub mod Bytes
pub mod Frames
pub mod Codecs
pub mod Fragmenter
pub mod Reassembler
pub mod StreamIds
pub mod Resume
pub mod Lease
pub mod Deferred
pub mod KeepAlive
pub mod Streams
pub mod RequestResponse
pub mod RequestFnf
pub mod RequestStream
pub mod RequestChannel
pub mod Multiplexer
pub mod Session
pub mod Connection
pub mod Transfer
