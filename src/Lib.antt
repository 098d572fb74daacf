-- ===== src/Lib.antt =====
-- A verification library for glibs, a Go library of a task queue, encryption, key-value stores, a cache
-- of database queries, login tokens and two versions of a JSON-RPC server.
--
-- Parts, and the files that model them:
-- - util/queue.go, the delayed task queue: Queue (tasks, options and `NewGQueue`), Queue/Retry
--   (`runTask`), Queue/Server (the goroutines as steps between which others may run). An event is a
--   client's call or one step of a goroutine; a run is any list of events, so it is any interleaving.
--   Queue/Config, Queue/Server/Flow, Queue/Server/Capacity and Queue/Server/Progress hold the proofs.
-- - crypto/aesCBC.go: Crypto, with Crypto/Hex, Crypto/Base64 and Crypto/Cbc for the text forms and the
--   chaining, Crypto/Padding and Crypto/Roundtrip for the proofs. The block cipher and the random
--   bytes are parameters.
-- - mdb/storage.go and mdb/storage-redis.go: Storage/Redis (`RedisStore`), Storage/Free (`FreeStore`,
--   `CCStore`). The libraries that keep the data are parameters, described in Storage/Libraries;
--   Storage/Memory has an instance of each that keeps it in lists.
-- - mdb/gm2c.go, the plugin that caches the rows of queries: Gm2c (the keys of the cache and the reading
--   of a statement's conditions), Gm2c/Store (the interface `CacheStore`), Gm2c/Plugin (`query`, the
--   cache's reads and writes, `afterDelete`). Gm2c/Plugin/Coherence says what a true cache is, Keys,
--   Lookups, Queries and Writes beside it hold the proofs, History the composition, Stale the conditions
--   that a key does not tell apart. A query has three times of the clock, one for each access of the
--   store.
-- - mdb/curd.go: Curd (the changes of a row by its id, with what they call as parameters), Curd/Changes
--   for their proofs, Curd/Paging (`FindResultWithModel`) and Curd/Paging/Pages.
-- - jwt/jwt.go and jwt/store.go: Jwt (tokens over the interface `ItfTokenStore`, here the record
--   `TokenStore`), Jwt/Session for its proofs, Jwt/Stores for the two stores that fill the interface:
--   one in memory, one over `RedisStore` with a `FreeStore` before it.
-- - j2rpc2: Rpc (messages, request checks and arguments), Rpc/Context (`rpcContext`), Rpc/Router (the
--   registration of functions and types, and the groups), Rpc/Server (`handleReadBody`,
--   `handleCallFunc`, `Next`). User code is a script of calls of a context; JSON and reflection are
--   parameters.
-- - j2rpc, the first version of the server: J2rpc (messages, errors, `UpsertHandlers`), J2rpc/Body
--   (`ParseRPCBody`), J2rpc/Registry (`Register`, `getCallBack`, `makeArgTypes`), J2rpc/Context (`Do` and
--   `Next`), J2rpc/Call (`callback.call`), J2rpc/Response (what is written, as the calls of the
--   response), J2rpc/Server (`handle`, `Handler`, `ServeHTTP`). Their proofs are in the files below them
--   and in J2rpc/Messages.
-- - util/closeable.go: Closeable, a channel with a queue before it, with Closeable/Flow for its proofs.
-- - util/slice.go, util/singleton.go and the text functions of j2rpc/functions.go: Collections.
-- - Base: what the parts share: Go's 64-bit integers (Base/Int), maps as association lists
--   (Base/Dict), bytes, bits, and the splitting of strings (Base/Split).
--
-- The parts interact by calls: Gm2c keeps its entries in a `CacheStore`, which Storage/Free fills; Jwt
-- encrypts ids with Crypto and keeps tokens in a `TokenStore`, whose
-- second instance reads and writes through Storage. Each client takes what it calls as a record of
-- operations with laws, which the theorems of the called part fill.
--
-- Numbers are ℕ or the ℤ of Base/Int; sums and products of `int` and `int64` that may leave the 64 bits
-- are wrapped (`wrap64`). Times are integers, read from the clock as an argument. Three definitions run on
-- fuel, each for the depth of nested calls: `attempts` and `next` of J2rpc/Context, for which enough fuel
-- is proved, and `next` of Rpc/Server; what is stated of the last holds at every fuel.
--
-- What the models take for granted: a queue has the shared pool of goroutines for itself; the largest
-- size of a channel is a parameter; a context of j2rpc2 is used by one goroutine at a time; a caller of
-- the token store in memory does not change a token that it has stored.
--
-- Not modelled: the parts that only configure or wrap other libraries (boot, cmd, cmd2, config, env,
-- gemq, giris, giris2, gresty, most of mdb and util), panics of user code in j2rpc2 and of handlers in
-- j2rpc, the loggers, the sharing of one query by several goroutines in mdb/gm2c.go (`singleflight`) and
-- the plugin's registration, and `Wait` of the queue, which changes nothing.
pub mod Base
pub mod Closeable
pub mod Collections
pub mod Crypto
pub mod Curd
pub mod Gm2c
pub mod J2rpc
pub mod Jwt
pub mod Queue
pub mod Rpc
pub mod Storage
