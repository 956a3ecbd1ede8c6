-- ===== src/Lib.antt =====
-- Verification of the Narwhal and Tusk node: the DAG of certificates that the primaries build,
-- the consensus that orders it, and the workers that batch encrypted transactions.
--
-- The parts and their files, each with its main functions:
--   Base            shared: Boolean tests, w-bit arithmetic, lists, sets, maps, results, sorting.
--   Crypto          crypto/src/lib.rs: digests, signatures, the signature service; `Encoding` has the
--                   textual forms of keys, `Keys` their generation; `Threshold` is
--                   crypto/src/threshold.rs.
--   Config          config/src/lib.rs: the committee, stakes, thresholds, addresses. `Thresholds` and
--                   `Quorum` are about the arithmetic of quorums, `Files` has import and export.
--   Store           store/src/lib.rs: the task that owns the database, with its obligations; `Spec` is
--                   what it promises.
--   Primary         primary/src: `Header`, `Vote`, `Certificate` (messages.rs), `Aggregators`
--                   (aggregators.rs), `Synchronizer` (synchronizer.rs), `Core` (core.rs), `Proposer`
--                   (proposer.rs), `HeaderWaiter` (header_waiter.rs), `Tasks` (certificate_waiter.rs,
--                   garbage_collector.rs, helper.rs, payload_receiver.rs and the handlers of
--                   primary.rs), `Platform` (what the tasks take from outside).
--   Consensus       consensus/src/lib.rs: `State` (State::new, update), `Leader` (leader), `Linked`
--                   (linked), `Order` (order_leaders, order_dag), `Run` (run).
--   Worker          worker/src: `BatchMaker`, `QuorumWaiter`, `Processor`, `Synchronizer`, `Helper`,
--                   `Handlers`, `PrimaryConnector`.
--   Network         network/src: `Reliable` and `Sender` (Connection and ReliableSender of
--                   reliable_sender.rs), `Simple` (simple_sender.rs), `Receiver` (receiver.rs).
--   Node            node/src: `Client`, the load generator of benchmark_client.rs.
--   Samples         a committee of four and stand-ins for the cryptography, for the tests.
--
-- How they interact: a worker's batch maker seals a batch, its quorum waiter gathers decryption shares
-- and acknowledgements, and its processor tells the primary the digest. The proposer puts digests and
-- parents into a header; the core of each primary checks headers, votes for them, assembles votes into
-- certificates, and certificates into the parents of the next round. Certificates whose ancestors are
-- known go to consensus, which commits leaders and returns the ordered sequence; its rounds drive the
-- garbage collection of the core. The header waiter and the certificate waiter hold back what depends
-- on data that is not in the store, and the worker's synchronizer fetches the batches that are missing.
--
-- How the state is modelled: a task is a record of its fields, with the list of what it has sent, and
-- its loop runs over a list of events. A method of the core takes and returns that record (Core.State),
-- with a result that may be an error or a panic, and what it had changed before an error stays changed.
-- Other tasks write to the store between two steps of the core. Machine integers wrap around as in a
-- build without overflow checks. Keys and digests are numbers; maps and sets are lists, and where the
-- source iterates over a hash map the order is that of insertion.
--
-- Fuel: the core's methods call each other, process_header with the fuel `depth`, which is two, and
-- order_dag visits the DAG with two more than the certificates it holds. That both are enough is among
-- the results.
--
-- The futures that a waiter polls are a list, each with the number of its cancel channel, and an event
-- says which one ends and how. A connection of the reliable sender is a record whose events say what
-- TCP does: an attempt succeeds or fails, the stream takes so many messages and breaks, a frame comes.
-- Times are numbers of milliseconds, and a random shuffle is a parameter.
--
-- Not modelled: TCP itself and the loop that accepts connections, the start-up of the tasks, file
-- formats, command line, logging, and what is in third-party packages: SHA-512, ed25519, base64,
-- RocksDB, bincode, serde_json and the threshold scheme are parameters (Crypto.Primitives,
-- Crypto.Keys.Dalek, Crypto.Encoding.Base64, Crypto.Threshold.Scheme, Store.Rocksdb,
-- Config.Files.FileSystem and Json, Primary.Platform, Worker.Platform, Node.Client.Encryption). For
-- the core, what the waiters loop back to it are events with any content. Channels deliver in order
-- and their receivers live. The code under the feature `benchmark` is left out.
mod Base
mod Samples
pub mod Crypto
pub mod Config
pub mod Store
pub mod Primary
pub mod Worker
pub mod Node
pub mod Network
pub mod Consensus
