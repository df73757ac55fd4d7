-- ===== src/Lib.antt =====
-- Scalable Data Sync (SDS), the end-to-end reliability protocol of packages/sds, and the parts of the
-- SDK and of the core around it that decide what is sent again, what is fetched from a store node, and
-- from whom: a model of the message channel, its repair extension (SDS-R), its Bloom filter and its
-- local history, of the retries, of store queries, of the choice of peers, and of sharding.
--
-- The parts, and how they work together. A `MessageChannel` sends content messages that carry a
-- Lamport timestamp, the last messages of its local history and its Bloom filter; a receiver learns
-- from these which messages it misses and which of its own were received. The repair manager
-- decides when to ask for a missing message and when to answer the requests of others.
--
--   Message   packages/sds/src/message_channel/message.ts: the message, its three kinds, encode and
--             decode over the generated codec; Message.Text is `ContentMessage.valueOf`.
--   Bloom     packages/sds/src/bloom_filter/bloom.ts: `insert`, `lookup`, `toBytes`, `fromBytes`.
--   History   packages/sds/src/message_channel/mem_local_history.ts: `MemLocalHistory`.
--   Repair    packages/sds/src/message_channel/repair: Repair.Buffer is what the two classes of
--             buffers.ts share, Repair.Outgoing and Repair.Incoming are the classes, Repair.Manager
--             is repair.ts with utils.ts.
--   Channel   packages/sds/src/message_channel/message_channel.ts with events.ts and
--             command_queue.ts: the state is the record `Channel`, Channel.Receiving is
--             `_pushIncomingMessage`, Channel.Acks `reviewAckStatus`, Channel.Sweeping the three
--             sweeps, Channel.Sending the outgoing messages, Channel.Tasks the task queue.
--   Reliable  packages/sdk/src/reliable_channel: Reliable.SyncStatus is sync_status.ts, which the
--             SDK's reliable channel feeds from the events of the message channel,
--             Reliable.RetryManager is retry_manager.ts, which sends a message again until it is
--             acknowledged, and Reliable.QueryOnConnect is query_on_connect/query_on_connect.ts of the
--             SDK, which asks a store node for the messages of the time without a connection.
--             Reliable.ReliableChannel is reliable_channel.ts, which has all of these, with what it sends
--             in Reliable.ReliableChannel.Sending, and
--             Reliable.MissingMessageRetriever is missing_message_retriever.ts.
--   Store     packages/core/src/lib/store: Store is `queryPerPage` with `StoreQueryRequest`;
--             Store.Query is packages/sdk/src/store/store.ts, which makes the queries.
--   PeerManager  packages/sdk/src/peer_manager/peer_manager.ts: `getPeers` and `renewPeer`.
--   LightPush    packages/sdk/src/light_push/retry_manager.ts with utils.ts.
--   Sharding  packages/utils/src/common: Sharding.RelayShard is relay_shard_codec.ts, Sharding.Topics
--             is sharding/topics.ts.
--   Enr       packages/enr/src: Enr.Waku2 is waku2_codec.ts, Enr.Multiaddrs multiaddrs_codec.ts.
--   Discovery packages/discovery/src/dns/fetch_nodes.ts.
--   Platform  what the code calls and this repository does not implement, as parameters.
--   Prelude   numbers, lists, texts, maps, and the effect of methods that may throw.
--   Tests     concrete runs.
--
-- A method is a function from the state to an outcome: a result and a state, or an error and the
-- state at the throw. The events that the channel dispatches are recorded in its state, in order; a
-- listener that throws is caught by the code and is not modelled. `now` is what `Date.now()`
-- returns, one value for each call of a method; `process_tasks` has one for each task. Tasks that are
-- put into the queue while it waits for a callback are left out. A callback is given by how it ends (`Reply`), and a method that
-- waits for one has two halves. Timestamps are natural numbers without a bound: the code keeps them
-- as bigints, and only the wire format limits them to 64 bits.
--
-- Assumptions on the parameters, used where a theorem names them: `localeCompare` is a total order
-- (IsCollation), the compiled hash stays below its maximum (IsBoundedHash), lodash's `uniqBy` keeps
-- the first of each key (KeepsFirst). The local history is `MemLocalHistory`, the default. A word of
-- the Bloom filter that is read past the end of the array makes the operation throw. The decimal
-- digits of a timestamp are read with as much fuel as the number plus one, which is more than it
-- has digits; `process_tasks` needs one unit of fuel for each task and one more.
--
-- A query of a store node and the reading of addresses have fuel for their rounds; more fuel than the
-- node has messages, and as much fuel as there are bytes, are enough. The doubles in which the times of
-- a query are computed are rounded to 53 bits. The timers of the host are part of the state of a retry
-- manager; a timer that fires is a step, and the methods of the manager that the retry calls while it
-- runs are given with it.
--
-- A run (Channel.Invariant.Runs) is a sequence of whole tasks, sweeps and synchronisations. The
-- interleaving of a send that waits for its callback with other calls is not part of a run.
--
-- Not modelled: logging, the formula that derives the sizes of the Bloom filter from an error rate
-- (packages/sds/src/probabilities.ts; the default sizes are constants), the compiled Nim hash, the
-- generated protobuf code, streams and their protocols (packages/core but for the store queries), the
-- constructor of `ReliableChannel`, its subscription and its timer of sync messages, filter
-- subscriptions and the rest of the SDK, the DNS tree and the keys of node records, and the other
-- packages of the repository. Waits inside `getPeers` are taken to be over before it selects.
pub mod Bloom
pub mod Channel
pub mod History
pub mod Message
pub mod Platform
pub mod Prelude
pub mod Reliable
pub mod Repair
pub mod Sharding
pub mod Enr
pub mod PeerManager
pub mod Store
pub mod LightPush
pub mod Discovery
pub mod Tests
