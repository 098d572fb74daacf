-- ===== src/Storage.antt =====
-- mdb/storage.go and mdb/storage-redis.go: the stores behind the interface `CacheStore`. The
-- libraries that keep the data (redis, freecache, ccache) are parameters, in `Storage/Libraries`.
pub mod Libraries
pub mod Redis
pub mod Free
pub mod Memory
mod Tests
