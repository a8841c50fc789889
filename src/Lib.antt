-- ===== src/Lib.antt =====
-- rskafka, a Kafka client in Rust: a model of its protocol layer and of the connection that
-- carries it, with the theorems that make it correct.
--
-- The program. src/protocol has the wire format: primitive types, frames, headers and messages.
-- src/messenger.rs runs one connection to a broker: callers send requests in frames and wait on a
-- oneshot channel, and a background task reads frames and hands each response to the request with
-- its correlation ID. src/connection.rs keeps the connections, and src/client has what users call:
-- clients, a producer that batches records, and a stream that consumes a partition.
--
-- The files. Prelude has the names and the arithmetic that all parts share.
--   Protocol/Traits (src/protocol/traits.rs): a reader is a function from the bytes that are
--   left to a value and the rest, an error or a Rust panic; a writer is the bytes it appends, an
--   error or a panic. Traits/Laws has the logic of round trips, Traits/Succeeds that of writers
--   that succeed, Traits/Total that of readers that return, Traits/Yields that of what is read.
--   Protocol/VecBuilder (src/protocol/vec_builder.rs): the builder that allocates in blocks.
--   Refinement and Elements show that it reads what a plain reader does.
--   Protocol/Primitives (src/protocol/primitives.rs): the primitive types, a module per group,
--   with Laws below each; RoundTrip has what they promise.
--   Protocol/Frame (src/protocol/frame.rs): `read_message` and `write_message` on the bytes of a
--   stream until its end.
--   Protocol/ApiKey, Protocol/ApiVersion, Protocol/Error (the files of these names in
--   src/protocol): the tables of codes, and version ranges.
--   Protocol/Messages (src/protocol/messages): the idioms of versioned fields, the versioned
--   arrays of mod.rs, the headers of header.rs, and a module for each message: the requests that
--   are written and the responses that are read, by version. Compact has names and arrays in
--   both forms, Constants the constants of constants.rs, Total what reading responses never
--   does.
--   Protocol/Record (src/protocol/record.rs, and Records of src/protocol/primitives.rs): Entry
--   has records and control records, Attributes the flags of a batch, Batch the batch with its
--   length and checksum, Batches the loop over the batches of a message. The crates integer-
--   encoding and crc32c and the four compressions are a parameter, `Libraries`; what they
--   promise is `LibraryLaws`.
--   Messenger (src/messenger.rs): `MessengerState` with `poison`; Versions has `match_versions`;
--   Requests has what `request_with_version_ranges` writes and reads; Worker has the body of the
--   background task; World has the steps of callers and worker on the shared state, each access
--   under the lock being one step, with CleanupRequestStateOnCancel; World/Invariant and the
--   files after it show what no interleaving can break; Sync has the loops of `sync_versions` on
--   the answers to its requests.
--   Throttle (src/throttle.rs), Backoff (src/backoff.rs): `maybe_throttle`, and the loop of
--   `retry_with_backoff` on the rounds that are to come, each with what the clock says after it.
--   Connection (src/connection.rs): `BrokerConnector` with the connection to any broker and its
--   generation; Topology (src/connection/topology.rs) has the known brokers, Metadata the
--   requests for metadata with their retries and the cache.
--   Client/MetadataCache (src/client/metadata_cache.rs): the cached metadata with its
--   generation, each access under the lock being one function.
--   Client/Records (src/record.rs; Headers has the map of the headers),
--   Client/Producer/Aggregator (src/client/producer/aggregator.rs): the records of users and how
--   they are collected into a batch.
--   Client/Error (src/client/error.rs): the errors that users meet.
--   Client/Retry (`maybe_retry` of src/client/partition.rs and src/client/controller.rs): the
--   loop that both have, with what an error asks for as a parameter, and the closure that the
--   operations give to it.
--   Client/Partition (src/client/partition.rs): Requests and Responses have what is sent and
--   what is accepted, Records what a fetch yields, Leader how the leader is found, cached and
--   given up (Confirmed: who it is), Retry which errors are tried again, Operations the four
--   operations on the answers that brokers give, and Creation `new` (Rounds: one round of it).
--   Client/Controller (src/client/controller.rs): the connection to the controller, and creating
--   and deleting topics.
--   Client/Producer (src/client/producer.rs): Broadcast (broadcast.rs) has the places of
--   results, Batch (batch.rs) the batch that is collected, and Inner `ProducerInner` with the
--   steps of callers and tasks, each under the lock of the producer.
--   Client/Consumer (src/client/consumer.rs): the stream of a partition's records, as a function
--   from the fetches that can be completed to what a poll returns; Order has its sorting,
--   Fetches what one fetch adds to its buffer, Deliveries what it delivers.
--   Tests: the theorems at concrete inputs.
--
-- Numbers. Bytes, lengths and unsigned words are native naturals below their bound; signed words
-- are integers, with the two's complement of the wire written out. `usize` is taken to have 64
-- bits. The sums of `i64` in src/client that the source does not check wrap, as in a build without
-- overflow checks; the one unchecked `len - 1` of `CompactBytes` is a panic, as in a build with
-- them. Rust panics (`expect`, `assert!`, a failed subtraction) are an outcome of their own.
--
-- Bounds and fuel. The loop of `read_message` that skips a message runs on fuel of one round for
-- each byte, which is enough for every limit but 0. The byte reader of the builder and the loop
-- over the batches of a message run on fuel of one round for each byte, which is enough. The loops
-- that retry run on the list of the rounds that are to come, and have no result where it is used
-- up: the source has no deadline by default. The theorems on the messenger ask that at most 2 ^ 32
-- correlation IDs were taken: after that an ID is taken again while an old request may still hold
-- it, which the code does not check.
--
-- Not modelled: tokio's scheduling other than as the order of the steps, the sockets and TLS of
-- src/connection/transport.rs, SASL sessions (their messages are), the random waiting times of
-- `Backoff::next`, what `produce` of a producer returns when its linger fails, the wait of a
-- manual flush for the tasks that are out and the abort of tasks when a producer is dropped,
-- logging, Display, and the parts that no file above names.
pub mod Prelude
pub mod Protocol
pub mod Messenger
pub mod Backoff
pub mod Throttle
pub mod Connection
pub mod Client
mod Tests
