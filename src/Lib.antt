-- ===== src/Lib.antt =====
-- A model of object_database, a transactional object database: a server that keeps objects in a
-- key-value store, orders the transactions of its clients, and tells each client of the changes
-- that it has subscribed to.
--
-- Clients reach the server over a byte stream that is cut into messages (MessageBus). A message of
-- a client is dispatched by its kind (Server/Dispatch). A transaction comes in pieces that are put
-- together (Server/Transactions), is tested against the version numbers of what it read
-- (Server/Versions), is written to the store (Persistence) and broadcast (Server/Routing); a
-- subscription is answered from the store (Server/Subscriptions).
--
-- Prelude: library names passed on, list lemmas, equality as an instance, integers, and `Exec`, the
--   methods that change a state and return or raise.
-- Collections: Python's dictionaries and sets as lists without order guarantees beyond insertion.
-- MessageBus/Struct: Python's `struct`, a parameter with its documented laws.
-- MessageBus/Buffer: `MessageBuffer` of object_database/message_bus.py. `write` runs its loop on
--   fuel, two more than the bytes in the buffer: each round takes at least one length or message.
-- ByteQueue: `BytecountLimitedQueue` of object_database/bytecount_limited_queue.py, its threads as
--   steps that interleave. The step of `get` that takes a message and the one that accounts for it
--   are two.
-- Identity: `IdentityProducer` of object_database/identity.py.
-- Schema: the identifier types of object_database/schema.py. Byte strings are lists of numbers.
-- Persistence: `InMemoryPersistence` of object_database/persistence.py; the serialization of index
--   values is a parameter that can be undone.
-- Server: `TypeMap`, `ConnectedChannel` and `Server` of object_database/server.py.
--   Server/TypeMap: TypeMap. Server/Messages: object_database/messages.py.
--   Server/State: the fields of Server in groups; a channel is a number, and what is written to the
--   channels is a list in its order.
--   Server/Versions: the version numbers and `_garbage_collect`; History and Collection hold what
--   they remember.
--   Server/Routing, Server/Request, Server/Growth, Server/Commit:
--   `_commitAndBroadcastNewTransaction`, in the stages in which it runs. Commit/Frames: what leaves
--   the versions alone. Commit/Effect and Commit/Attempt: the method as a whole. Commit/Include: the
--   index values of objects that are new to a subscriber.
--   Server/Transactions: `handleTransactionData`, `extractTransactionData` and the completion of a
--   transaction.
--   Server/Connections: `addConnection`, `dropConnection`, `checkForDeadConnections` and what they
--   call; Connections/Registries and Connections/Departure: what becomes of a dropped channel.
--   Server/Subscriptions: `_handleSubscriptionInForeground` and what it calls.
--   Server/Dispatch: `onClientToServerMessage` and `_defineSchema`; Dispatch/Schemas: the numbers
--   that it gives.
-- Proxy: object_database/proxy_server.py, a server that stands between the main server and clients and
--   subscribes to whole types for them.
--   Proxy/State: the tables of SubscriptionState in groups. Proxy/Reads: its lookups.
--   Proxy/Departure: `dropConnection`. Proxy/Registry: the tables of subscriptions from both sides;
--   Registry/Drop, Registry/Stale: what becomes of a dropped channel.
--   Proxy/Received: `mapSchema`, `handleSubscriptionData`. Proxy/Subscriptions: `addSubscription`,
--   `sendDataForSubscription`, `handleSubscriptionComplete`.
--   Proxy/Values: what `handleTransaction` does to the objects; Values/Overwrites, Values/Index: the
--   values as a map, and the two index tables; Values/Frame: what leaves them alone.
--   Proxy/Transactions, Proxy/Broadcast: the rest of `handleTransaction`, and
--   `increaseSubscriptionIfNecessary`. Proxy/Schemas: the merging of schema definitions.
--   Proxy/Server: the tables of ProxyServer and its connections. Server/Requests, Server/Dispatch
--   (under Proxy): a client's messages. Server/Replies: the main server's. Server/Sound: what holds
--   between the tables; Server/Steps, Server/Handlers, Server/Clients: the operations on them.
--   Server/Reachable: the calls a proxy gets, as steps. Server/Answers: the verdict on a
--   transaction. Server/Strangers, Departure/Untouched: clients without a login.
--   Server/Held: flushes and held messages. Broadcast/Receivers: who hears of a transaction.
--   `Set.pop`, `Dict.get(None)` and the assignment of a list of another type, of typed_python, are
--   parameters, and so are the deserialization of an object and `uuid4`.
-- Util: the edit distance of object_database/util.py. A string is a sequence of any type with `==`.
--
-- The methods of the server and of the proxy run under a lock and are sequential here. A time is a
-- tick of an abstract clock; those that one transaction reads are an argument. The order
-- in which Python iterates over a set is that of a list. An exception keeps the state that was reached.
--
-- Not modelled: the log and its counters (every `logInterval`, at the end of a commit, the log looks up
-- the definition of each field that was written, and raises an exception if there is none), timings, the transaction watcher, the background thread
-- of large subscriptions, the Redis store, the event loop of the message bus, sockets and TLS, the
-- client's views and their C++ store, the service manager and the web framework.

pub mod Prelude
pub mod Collections
pub mod MessageBus
pub mod ByteQueue
pub mod Identity
pub mod Schema
pub mod Persistence
pub mod Server
pub mod Proxy
pub mod Util
